-- ===== src/Install/Reading.antt =====
-- Reading packages out of Consul does not change what Consul holds.
use mantl_api.Prelude.{String, Option, none, some, List, [], ◌∷◌}
use mantl_api.Prelude.Outcome.{Result}
use mantl_api.Prelude.Exec.Keeps.{Keeps, lift-Keeps, >>=-Keeps, attempt-Keeps}
use mantl_api.Prelude.Int.{ℤ}
use mantl_api.Json.{Fields, Codec}
use mantl_api.Consul.{Consul}
use mantl_api.Install.Package.{Package, PackageVersion}
use mantl_api.Install.Config.Render.{Mustache, merged_config}
use mantl_api.Install.Repository.{
  Repository, repository_indexes, repository_name, named, get_repositories,
}
use mantl_api.Install.Catalog.{Catalog, new_package_catalog}
use mantl_api.Install.Catalog.Index.{
  Found, key_exists, package_meta, index_keys, index_package, index_packages, packages_index,
  get_packages, get_package_by_name,
}
use mantl_api.Install.Config.Definition.{PackageDefinition}
use mantl_api.Install.Config.Render.Sharing.{user_config_after}
use mantl_api.Install.Fetch.{
  Texts, definition_file, read_files, load, load_all, definition_of, package_or_fail,
  version_or_fail, completed, get_package_definition,
}

-- The calls of Consul that read do not change what `view` shows of the world.
pub record KeepsOnRead {W V : Type 0} (view : W → V) (consul : Consul W) : Type 0 where
  pub gets : (key : String) → Keeps view (consul.get key)
  pub lists_keys : (prefix sep : String) → Keeps view (consul.keys prefix sep)

module _ {W V : Type 0} (view : W → V) (consul : Consul W) (reads : KeepsOnRead view consul) where
  named-Keeps : (idxs : List ℤ) → Keeps view (named consul idxs)
  unfolding named repository_name
  named-Keeps [] = lift-Keeps view _
  named-Keeps (idx ∷ idxs) =
      attempt-Keeps view (>>=-Keeps view (reads.gets _) (λ kp. lift-Keeps view _))
        (λ name. >>=-Keeps view (named-Keeps idxs) (λ rest. lift-Keeps view _))
        (λ e. named-Keeps idxs)

  get_repositories-Keeps : Keeps view (get_repositories consul)
  unfolding get_repositories repository_indexes
  get_repositories-Keeps =
      >>=-Keeps view (>>=-Keeps view (reads.lists_keys _ _) (λ keys. lift-Keeps view _)) named-Keeps

  definition_file-Keeps : (name key : String) → Keeps view (definition_file consul name key)
  unfolding definition_file
  definition_file-Keeps name key =
      attempt-Keeps view (reads.gets _) (λ kp. lift-Keeps view _) (λ e. lift-Keeps view _)

  read_files-Keeps : (key : String) → Keeps view (read_files consul key)
  unfolding read_files
  read_files-Keeps key = >>=-Keeps view (definition_file-Keeps _ key) λ command.
      >>=-Keeps view (definition_file-Keeps _ key) λ config.
        >>=-Keeps view (definition_file-Keeps _ key) λ marathon.
          >>=-Keeps view (definition_file-Keeps _ key) λ metadata.
            >>=-Keeps view (definition_file-Keeps _ key)
              λ options. >>=-Keeps view (definition_file-Keeps _ key) λ uninstall. lift-Keeps view _

  load-Keeps :
      (repos : List Repository) (version_key : String) (texts : Texts)
      → Keeps view (load consul repos version_key texts)
  unfolding load
  load-Keeps [] version_key texts = lift-Keeps view _
  load-Keeps (repo ∷ repos) version_key texts =
      >>=-Keeps view (read_files-Keeps _) λ found. load-Keeps repos version_key _

  load_all-Keeps :
      (repos : List Repository) (key : Result String) → Keeps view (load_all consul repos key)
  unfolding load_all
  load_all-Keeps [] key = lift-Keeps view _
  load_all-Keeps (repo ∷ repos) key =
      >>=-Keeps view (lift-Keeps view _) λ k. load-Keeps (repo ∷ repos) k _

module _ {W N V : Type 0} (view : W → V) (consul : Consul W) (c : Codec N)
    (reads : KeepsOnRead view consul) where
  index_keys-Keeps :
      (keys : List String) (found : Found) → Keeps view (index_keys consul c keys found)
  unfolding index_keys key_exists package_meta
  index_keys-Keeps [] found = lift-Keeps view _
  index_keys-Keeps (key ∷ keys) found =
      >>=-Keeps view
        (attempt-Keeps view (reads.gets _) (λ kp. lift-Keeps view _) (λ e. lift-Keeps view _))
        λ has.
          >>=-Keeps view
            (attempt-Keeps view (reads.gets _) (λ kp. lift-Keeps view _) (λ e. lift-Keeps view _))
            λ meta. >>=-Keeps view (lift-Keeps view _) λ p. index_keys-Keeps keys _

  index_packages-Keeps :
      (catalog : Catalog) (names : List String) → Keeps view (index_packages consul c catalog names)
  unfolding index_packages index_package
  index_packages-Keeps catalog [] = lift-Keeps view _
  index_packages-Keeps catalog (name ∷ more) =
      >>=-Keeps view (>>=-Keeps view (index_keys-Keeps _ _) (λ found. lift-Keeps view _))
        λ p. >>=-Keeps view (index_packages-Keeps catalog more) λ rest. lift-Keeps view _

  pub get_packages-Keeps : Keeps view (get_packages consul c)
  unfolding get_packages new_package_catalog packages_index
  get_packages-Keeps =
      >>=-Keeps view (>>=-Keeps view (reads.lists_keys _ _) (λ keys. lift-Keeps view _))
        λ catalog. index_packages-Keeps catalog _

  pub get_package_by_name-Keeps : (name : String) → Keeps view (get_package_by_name consul c name)
  unfolding get_package_by_name
  get_package_by_name-Keeps name = >>=-Keeps view get_packages-Keeps (λ packages. lift-Keeps view _)

module _ {W N V : Type 0} (view : W → V) (consul : Consul W) (c : Codec N) (mustache : Mustache N)
    (reads : KeepsOnRead view consul) where
  package_or_fail-Keeps :
      (name : String) (o : Option Package) → Keeps view (package_or_fail consul c mustache name o)
  unfolding package_or_fail
  package_or_fail-Keeps name none = lift-Keeps view _
  package_or_fail-Keeps name (some p) = lift-Keeps view _

  version_or_fail-Keeps :
      (name : String) (o : Option PackageVersion)
      → Keeps view (version_or_fail consul c mustache name o)
  unfolding version_or_fail
  version_or_fail-Keeps name none = lift-Keeps view _
  version_or_fail-Keeps name (some v) = lift-Keeps view _

  completed-Keeps : (d : PackageDefinition N) → Keeps view (completed consul c mustache d)
  unfolding completed
  completed-Keeps d = >>=-Keeps view (lift-Keeps view (merged_config c mustache d)) λ config.
      >>=-Keeps view (lift-Keeps view (user_config_after c mustache d)) λ user. lift-Keeps view _

  pub get_package_definition-Keeps :
      (name version : String) (user_config api_config : Fields N)
      → Keeps view (get_package_definition consul c mustache name version user_config api_config)
  unfolding get_package_definition
  get_package_definition-Keeps name version user_config api_config =
      >>=-Keeps view (get_package_by_name-Keeps view consul c reads name) λ found.
        >>=-Keeps view (package_or_fail-Keeps name found) λ pkg.
          >>=-Keeps view (version_or_fail-Keeps name _) λ v.
            >>=-Keeps view (get_repositories-Keeps view consul reads) λ repositories.
              >>=-Keeps view (load_all-Keeps view consul reads repositories _)
                λ texts. completed-Keeps (definition_of pkg v user_config api_config texts)
