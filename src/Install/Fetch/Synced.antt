-- ===== src/Install/Fetch/Synced.antt =====
-- What `getPackageDefinitionFile` of install/package.go reads of what `sync` of install/source.go
-- stores.
use mathlib.Core.List.{◌++◌ as ◌<>◌}
use mantl_api.Prelude.{String, ◌≡◌, refl, ap, ◌∙◌, ◌==◌, true, false, Option, some, List, [], ◌∷◌}
use mantl_api.Prelude.Lists.{All}
use mantl_api.Prelude.Outcome.{ok}
use mantl_api.Prelude.Text.{join, has_code}
use mantl_api.Prelude.Slash.{path_join}
use mantl_api.Prelude.Slash.Plain.{IsPlain}
use mantl_api.Prelude.Int.{show}
use mantl_api.Consul.{Consul}
use mantl_api.Install.Repository.{Repository}
use mantl_api.Install.Package.{Package, container_id, package_key, package_version_key}
use mantl_api.Install.Source.{
  Source, Host, root_key, source_timestamp_key, is_source_artifact, sync,
}
use mantl_api.Install.Source.Copy.{Faithful, key_of, Elsewhere, sync-look}
use mantl_api.Install.Source.Keys.{root_key-join}
use mantl_api.Install.Fetch.{definition_file, definition_key, text_or_empty}
use mantl_api.Install.Fetch.Layers.{File, name_of}
use mantl_api.Install.Fetch.Paths.{
  literal, path_below, file_key, key_of-file_key, version_key-join, definition_path-file_key,
  short-file_key,
}

module _ {W : Type 0} (consul : Consul W) (host : Host W) (look : W → String → Option String)
    (content : String → String) (faithful : Faithful consul host look content) (s : Source)
    (base : String) where
  root_of : root_key s ≡ join ("mantl-install" ∷ "repository" ∷ show s.index ∷ []) "/"
  root_of = root_key-join s

  last_names : IsPlain "name" × IsPlain "updated"
  unfolding has_code
  last_names = (literal refl refl refl refl, literal refl refl refl refl)

  definition_file-some :
      (name key at t : String) (w : W)
      → path_join (key ∷ name ∷ []) ≡ at
      → consul.get at w ≡ (ok (some t), w)
      → definition_file consul name key w ≡ (ok t, w)
  unfolding definition_file text_or_empty
  definition_file-some name key at t w e g = rw (e, g) refl

  version_key-ok :
      (pkg : Package) (id index : String)
      → container_id pkg ≡ ok id
      → package_version_key pkg index ≡ ok (path_join (path_join (id ∷ pkg.name ∷ []) ∷ index ∷ []))
  unfolding package_version_key package_key
  version_key-ok pkg id index h = rw h refl

  -- A file of a package is stored under its key.
  pub file_key-look :
      (id name index : String) (f : File) (front : List String) (file : String) (back : List String)
      (w w1 w' : W) (pi : IsPlain id) (pn : IsPlain name) (pv : IsPlain index)
      → sync consul host s base w ≡ (ok tt, w')
      → host.visits base w ≡ (ok (front <> file ∷ back), w1)
      → is_source_artifact file ≡ true
      → host.rel base file ≡ ok (join (path_below id name index f) "/")
      → All
          (Elsewhere consul host look content faithful s base
            (file_key s.index id name index f pi pn pv))
          back
      → look w' (file_key s.index id name index f pi pn pv) ≡ some (content file)
  unfolding source_timestamp_key
  file_key-look id name index f front file back w w1 w' pi pn pv done v a r away = rw at at (
      sync-look consul host look content faithful s base front file
        (join (path_below id name index f) "/") back w w1 w' done v a r (rw at away)
        (no_clash "name" last_names.0) (no_clash "updated" last_names.1))
    where
      key : String
      key = key_of consul host look content faithful s base (join (path_below id name index f) "/")

      at : key ≡ file_key s.index id name index f pi pn pv
      at =
          ap (λ k. path_join (k ∷ join (path_below id name index f) "/" ∷ [])) root_of
          ∙ key_of-file_key s.index id name index f pi pn pv

      no_clash :
          (last : String) → IsPlain last → (path_join (root_key s ∷ last ∷ []) == key) ≡ false
      no_clash last h = rw (at, root_of) (short-file_key s.index id name index f pi pn pv last h)

  -- With a store that keeps what is put and answers reads with what it holds, on a disk whose files
  -- do not change: when a copy of a source succeeds and the walk visits the file `f` of a version
  -- of a package at `repo/packages/<container>/<package>/<version>` below the directory of the
  -- source, then `getPackageDefinitionFile`, asked for the key of that version in the repository
  -- with the index of the source, returns the text that the file has on the disk, and leaves the
  -- store as it was. It is required that the container, the name and the version are elements that
  -- a path keeps, and that no file visited later is stored under the same key.
  pub definition_file-sync :
      (repo : Repository) (pkg : Package) (id index : String) (f : File) (front : List String)
      (file : String) (back : List String) (w w1 w' : W) (pi : IsPlain id) (pn : IsPlain pkg.name)
      (pv : IsPlain index)
      → repo.index ≡ s.index
      → container_id pkg ≡ ok id
      → sync consul host s base w ≡ (ok tt, w')
      → host.visits base w ≡ (ok (front <> file ∷ back), w1)
      → is_source_artifact file ≡ true
      → host.rel base file ≡ ok (join (path_below id pkg.name index f) "/")
      → All
          (Elsewhere consul host look content faithful s base
            (file_key s.index id pkg.name index f pi pn pv))
          back
      → ((k : String) → consul.get k w' ≡ (ok (look w' k), w'))
      → (key : String) × (package_version_key pkg index ≡ ok key)
        × (definition_file consul (name_of f) (definition_key consul repo key) w'
            ≡ (ok (content file), w'))
  definition_file-sync repo pkg id index f front file back w w1 w' pi pn pv e c done v a r away
        reads =
      (
        join (id ∷ pkg.name ∷ index ∷ []) "/",
        version_key-ok pkg id index c
            ∙ ap ok (version_key-join s.index id pkg.name index f pi pn pv),
        definition_file-some (name_of f)
            (definition_key consul repo (join (id ∷ pkg.name ∷ index ∷ []) "/"))
            (file_key s.index id pkg.name index f pi pn pv) (content file) w'
            (definition_path-file_key s.index id pkg.name index f pi pn pv consul repo e)
            (reads (file_key s.index id pkg.name index f pi pn pv)
              ∙ ap (λ o. (ok o, w'))
                  (file_key-look id pkg.name index f front file back w w1 w' pi pn pv done v a r
                    away)),
      )
