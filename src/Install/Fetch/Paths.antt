-- ===== src/Install/Fetch/Paths.antt =====
-- The keys of the files of a package, as install/source.go makes them and as install/package.go does.
use mantl_api.Prelude.{String, ◌≡◌, refl, ap, ◌∙◌, sym, ◌==◌, false, List, [], ◌∷◌}
use mantl_api.Prelude.Lists.{All}
use mantl_api.Prelude.Text.{split, join, has_code}
use mantl_api.Prelude.Text.Split.{ne_test, Lacks, split-join}
use mantl_api.Prelude.Slash.{path_join}
use mantl_api.Prelude.Slash.Plain.{IsPlain, Lacks-All}
use mantl_api.Prelude.Slash.Texts.{path_join-part_texts}
use mantl_api.Prelude.Int.{ℤ, show}
use mantl_api.Prelude.Int.Digits.{show-IsPlain}
use mantl_api.Consul.{Consul}
use mantl_api.Install.Repository.{Repository, packages_key}
use mantl_api.Install.Fetch.{definition_key}
use mantl_api.Install.Fetch.Layers.{
  File, command, config, marathon, metadata, options, uninstall, name_of,
}

pub literal :
    {p : String}
    → (p == "") ≡ false
    → (p == ".") ≡ false
    → (p == "..") ≡ false
    → Lacks b'/' p
    → IsPlain p
literal a b c d = record { nonempty = a; ne_dot = b; ne_dots = c; lacks = d }

name_of-IsPlain : (f : File) → IsPlain (name_of f)
unfolding has_code
name_of-IsPlain command = literal refl refl refl refl
name_of-IsPlain config = literal refl refl refl refl
name_of-IsPlain marathon = literal refl refl refl refl
name_of-IsPlain metadata = literal refl refl refl refl
name_of-IsPlain options = literal refl refl refl refl
name_of-IsPlain uninstall = literal refl refl refl refl

-- The path of a file of a version of a package, in the directory of a source.
abbrev pub path_below : String → String → String → File → List String
path_below id name index f = "repo" ∷ "packages" ∷ id ∷ name ∷ index ∷ name_of f ∷ []

module _ (i : ℤ) (id name index : String) (f : File) (plain_id : IsPlain id)
    (plain_name : IsPlain name) (plain_index : IsPlain index) where
  root : IsPlain "mantl-install" × IsPlain "repository"
  unfolding has_code
  root = (literal refl refl refl refl, literal refl refl refl refl)

  kept : IsPlain "repo" × IsPlain "packages"
  unfolding has_code
  kept = (literal refl refl refl refl, literal refl refl refl refl)

  below-IsPlain : All IsPlain (path_below id name index f)
  below-IsPlain =
      (kept.0, (kept.1, (plain_id, (plain_name, (plain_index, (name_of-IsPlain f, tt))))))

  version-IsPlain : All IsPlain (id ∷ name ∷ index ∷ [])
  version-IsPlain = (plain_id, (plain_name, (plain_index, tt)))

  above-IsPlain : All IsPlain ("mantl-install" ∷ "repository" ∷ show i ∷ [])
  above-IsPlain = (root.0, (root.1, (show-IsPlain i, tt)))

  -- The key of a file, all its elements.
  abbrev pub file_key : String
  file_key = join ("mantl-install" ∷ "repository" ∷ show i ∷ path_below id name index f) "/"

  pub key_of-file_key :
      path_join (
        join ("mantl-install" ∷ "repository" ∷ show i ∷ []) "/"
        ∷ join (path_below id name index f) "/"
        ∷ [])
      ≡ file_key
  key_of-file_key =
      path_join-part_texts "mantl-install" ("repository" ∷ show i ∷ [])
        (("repo", "packages" ∷ id ∷ name ∷ index ∷ name_of f ∷ []) ∷ [])
        (above-IsPlain, (below-IsPlain, tt))

  pub version_key-join :
      path_join (path_join (id ∷ name ∷ []) ∷ index ∷ []) ≡ join (id ∷ name ∷ index ∷ []) "/"
  unfolding join
  version_key-join =
      ap (λ k. path_join (k ∷ index ∷ []))
        (path_join-part_texts id [] ((name, []) ∷ []) ((plain_id, tt), ((plain_name, tt), tt)))
      ∙ path_join-part_texts id (name ∷ []) ((index, []) ∷ [])
          ((plain_id, (plain_name, tt)), ((plain_index, tt), tt))

  packages_key-join :
      (repo : Repository)
      → repo.index ≡ i
      → packages_key repo
        ≡ join ("mantl-install" ∷ "repository" ∷ show i ∷ "repo" ∷ "packages" ∷ []) "/"
  unfolding packages_key join
  packages_key-join repo e =
      ap (λ j. path_join ("mantl-install/repository" ∷ show j ∷ "repo/packages" ∷ [])) e
      ∙ path_join-part_texts "mantl-install" ("repository" ∷ [])
          ((show i, []) ∷ ("repo", "packages" ∷ []) ∷ [])
          ((root.0, (root.1, tt)), ((show-IsPlain i, tt), ((kept.0, (kept.1, tt)), tt)))

  pub definition_path-file_key :
      {W : Type 0} (consul : Consul W) (repo : Repository)
      → repo.index ≡ i
      → path_join (definition_key consul repo (join (id ∷ name ∷ index ∷ []) "/") ∷ name_of f ∷ [])
        ≡ file_key
  unfolding definition_key join
  definition_path-file_key consul repo e =
      ap (λ k. path_join (path_join (k ∷ join (id ∷ name ∷ index ∷ []) "/" ∷ []) ∷ name_of f ∷ []))
        (packages_key-join repo e)
      ∙ ap (λ k. path_join (k ∷ name_of f ∷ []))
          (path_join-part_texts "mantl-install" ("repository" ∷ show i ∷ "repo" ∷ "packages" ∷ [])
            ((id, name ∷ index ∷ []) ∷ [])
            ((root.0, (root.1, (show-IsPlain i, (kept.0, (kept.1, tt))))), (version-IsPlain, tt)))
      ∙ path_join-part_texts "mantl-install"
          ("repository" ∷ show i ∷ "repo" ∷ "packages" ∷ id ∷ name ∷ index ∷ [])
          ((name_of f, []) ∷ [])
          (
            (root.0, (root.1, (show-IsPlain i, (kept.0, (kept.1, version-IsPlain))))),
            ((name_of-IsPlain f, tt), tt),
          )

  pub file_key-elements :
      split file_key b'/' ≡ "mantl-install" ∷ "repository" ∷ show i ∷ path_below id name index f
  file_key-elements =
      split-join "mantl-install" ("repository" ∷ show i ∷ path_below id name index f) (
        Lacks-All ("mantl-install" ∷ "repository" ∷ show i ∷ path_below id name index f)
          (root.0, (root.1, (show-IsPlain i, below-IsPlain))))

  -- a key right below the source
  pub short-file_key :
      (last : String)
      → IsPlain last
      → (path_join (join ("mantl-install" ∷ "repository" ∷ show i ∷ []) "/" ∷ last ∷ [])
          == file_key)
        ≡ false
  unfolding join
  short-file_key last h =
      ne_test (path_join (join ("mantl-install" ∷ "repository" ∷ show i ∷ []) "/" ∷ last ∷ []))
        file_key (λ e. cc (sym short ∙ ap (λ k. split k b'/') e ∙ file_key-elements))
    where
      plain : All IsPlain ("mantl-install" ∷ "repository" ∷ show i ∷ last ∷ [])
      plain = (root.0, (root.1, (show-IsPlain i, (h, tt))))

      short :
          split
            (path_join (join ("mantl-install" ∷ "repository" ∷ show i ∷ []) "/" ∷ last ∷ []))
            b'/'
          ≡ "mantl-install" ∷ "repository" ∷ show i ∷ last ∷ []
      short =
          ap (λ k. split k b'/')
            (path_join-part_texts "mantl-install" ("repository" ∷ show i ∷ []) ((last, []) ∷ [])
              (above-IsPlain, ((h, tt), tt)))
          ∙ split-join "mantl-install" ("repository" ∷ show i ∷ last ∷ [])
              (Lacks-All ("mantl-install" ∷ "repository" ∷ show i ∷ last ∷ []) plain)
