-- ===== src/Install/Catalog/Listed.antt =====
-- What `NewPackageCatalog` of install/catalog.go makes of what `sync` of install/source.go stores.
use Prim.Native.String as S
use mathlib.Core.Path.{subst}
use text.Mathlib.TextLemmas.{cons-append, append_assoc}
use mathlib.Core.List.{◌++◌ as ◌<>◌}
use mantl_api.Prelude.{
  String, ◌≡◌, refl, ap, ◌∙◌, eq_refl, true, arith, Option, none, some, List, [], ◌∷◌, inl, inr,
}
use mantl_api.Prelude.Dict.{get}
use mantl_api.Prelude.Lists.{All, In}
use mantl_api.Prelude.Sort.{sort, In-sort}
use mantl_api.Prelude.Text.{less, split, join, through_last, has_prefix, strip_prefix}
use mantl_api.Prelude.Outcome.{ok}
use mantl_api.Prelude.Slash.Plain.{IsPlain}
use mantl_api.Prelude.Int.{show}
use mantl_api.Consul.{Consul}
use mantl_api.Install.Repository.{repository_root}
use mantl_api.Install.Catalog.{Catalog, package_parts, add_keys, new_package_catalog, package_keys}
use mantl_api.Install.Catalog.Held.{
  held, or_else, directory, first_directory, add_keys-held, package_keys-In,
}
use mantl_api.Install.Source.{Source, Host, is_source_artifact, sync}
use mantl_api.Install.Source.Copy.{Faithful, Elsewhere}
use mantl_api.Install.Fetch.Layers.{File}
use mantl_api.Install.Fetch.Paths.{path_below, file_key, file_key-elements}
use mantl_api.Install.Fetch.Synced.{file_key-look}

or_else-some :
    (x y : Option String) → (d : String) × (y ≡ some d) → (d : String) × (or_else x y ≡ some d)
or_else-some none y h = h
or_else-some (some x) y h = (x, refl)

-- A key that names a package, a repository and a version gives them a directory.
first_directory-In :
    (key repo name version : String) (ks : List String)
    → package_parts (split key b'/') ≡ some (repo, name, version)
    → In key ks
    → (d : String) × (first_directory ks name repo version ≡ some d)
first_directory-In key repo name version [] p m = absurd m
first_directory-In key repo name version (k ∷ ks) p m = elim m [
  | inl q ↦ (through_last k b'/', rw (← q, p, eq_refl, eq_refl, eq_refl) refl)
  | inr r ↦
      or_else-some
        (directory (package_parts (split k b'/')) (through_last k b'/') name repo version)
        (first_directory ks name repo version) (first_directory-In key repo name version ks p r)
]

has_prefix-append : (p s : String) → has_prefix (S.◌++◌ p s) p ≡ true
unfolding has_prefix strip_prefix
has_prefix-append S.[] s = refl
has_prefix-append (S.◌∷◌ c p) s = rw cons-append (ground (arith, has_prefix-append p s))

file_key-root :
    (s : Source) (id name index : String) (f : File) (pi : IsPlain id) (pn : IsPlain name)
    (pv : IsPlain index)
    → has_prefix (file_key s.index id name index f pi pn pv) repository_root ≡ true
unfolding join
file_key-root s id name index f pi pn pv =
    let below = S.◌++◌ "/" (join (show s.index ∷ path_below id name index f) "/") in
    subst (λ k. has_prefix k repository_root ≡ true)
      (append_assoc "mantl-install/" "repository" below
        ∙ append_assoc "mantl-install" "/" (S.◌++◌ "repository" below))
      (has_prefix-append repository_root below)

file_key-parts :
    (s : Source) (id name index : String) (f : File) (pi : IsPlain id) (pn : IsPlain name)
    (pv : IsPlain index)
    → package_parts (split (file_key s.index id name index f pi pn pv) b'/')
      ≡ some (show s.index, name, index)
unfolding package_parts
file_key-parts s id name index f pi pn pv =
    ap package_parts (file_key-elements s.index id name index f pi pn pv)

held-first_directory :
    (name repo version : String) (ks : List String)
    → held name repo version (add_keys ks []) ≡ first_directory ks name repo version
unfolding get
held-first_directory name repo version ks = add_keys-held ks name repo version []

module _ {W : Type 0} (consul : Consul W) (host : Host W) (look : W → String → Option String)
    (content : String → String) (faithful : Faithful consul host look content) (s : Source)
    (base : String) where
  -- With a store that keeps what is put and lists what it holds below the root, on a disk whose files do not
  -- change: when a copy of a source succeeds and the walk visits one of the six files of a version
  -- of a package at `repo/packages/<container>/<package>/<version>` below the directory of the
  -- source, then the catalog that is made after it holds a directory for the package under the
  -- index of the source and that version, and lists it among the keys of the package. It is
  -- required that the container, the name and the version are elements that a path keeps, and that
  -- no file visited later is stored under the same key.
  pub new_package_catalog-sync :
      (id name index : String) (f : File) (front : List String) (file : String)
      (back ks : List String) (w w1 w' : W) (pi : IsPlain id) (pn : IsPlain name)
      (pv : IsPlain index)
      → sync consul host s base w ≡ (ok tt, w')
      → host.visits base w ≡ (ok (front <> file ∷ back), w1)
      → is_source_artifact file ≡ true
      → host.rel base file ≡ ok (join (path_below id name index f) "/")
      → All
          (Elsewhere consul host look content faithful s base
            (file_key s.index id name index f pi pn pv))
          back
      → consul.keys repository_root "" w' ≡ (ok ks, w')
      → ((key text : String)
          → has_prefix key repository_root ≡ true
          → look w' key ≡ some text
          → In key ks)
      → (c : Catalog) × (new_package_catalog consul repository_root w' ≡ (ok c, w'))
        × ((d : String) × (held name (show s.index) index c ≡ some d) × In d (package_keys c name))
  unfolding new_package_catalog
  new_package_catalog-sync id name index f front file back ks w w1 w' pi pn pv done v a r away lists
        all =
      let key = file_key s.index id name index f pi pn pv in
      let stored =
        file_key-look consul host look content faithful s base id name index f front file back w w1
          w' pi pn pv done v a r away in
      let (d, e) =
        first_directory-In key (show s.index) name index (sort less ks)
          (file_key-parts s id name index f pi pn pv)
          ((In-sort less key ks).1
            (all key (content file) (file_key-root s id name index f pi pn pv) stored)) in
      let h = held-first_directory name (show s.index) index (sort less ks) ∙ e in
      (
        add_keys (sort less ks) [],
        rw lists refl,
        (d, h, (package_keys-In (add_keys (sort less ks) []) name d).1 (show s.index, index, h)),
      )
