-- ===== src/Install/Catalog.antt =====
-- install/catalog.go: the index of the packages that the repositories in Consul hold.
pub mod Index
pub mod Held
pub mod Listed
use mathlib.Core.Option.{get_or}
use mantl_api.Prelude.{String, Option, none, some, List, [], ◌∷◌, ◌++◌}
use mantl_api.Prelude.Dict.{Map, get, put, keys}
use mantl_api.Prelude.Sort.{sort}
use mantl_api.Prelude.Text.{less, split, through_last}
use mantl_api.Prelude.Exec.{Exec, pure, ◌>>=◌}
use mantl_api.Consul.{Consul}

-- The keys of packages, by name, repository and version.
abbrev pub Versions : Type 0
Versions = Map String

abbrev pub Repositories : Type 0
Repositories = Map Versions

abbrev pub Catalog : Type 0
Catalog = Map Repositories

-- A key of nine parts names a repository, a package and a version; others are passed over.
-- mantl-install/repository/0/repo/packages/S/spark/3/config.json
unfoldable pub package_parts : List String → Option (String × String × String)
package_parts (a ∷ b ∷ repo ∷ c ∷ d ∷ e ∷ name ∷ version ∷ file ∷ []) = some (repo, name, version)
package_parts _ = none

-- The inner maps are made on the way, and a version that is there keeps its key.
keep_version : Option String → String → String → Versions → Versions
keep_version none version key m = put version key m
keep_version (some old) version key m = m

add : Option (String × String × String) → String → Catalog → Catalog
unfolding keep_version
add none key catalog = catalog
add (some (repo, name, version)) key catalog =
    let repos = get_or (get name catalog) [] in
    let versions = get_or (get repo repos) [] in
    put name (put repo (keep_version (get version versions) version key versions) repos) catalog

-- one round of the loop of `NewPackageCatalog`
unfoldable pub add_key : String → Catalog → Catalog
unfolding add
add_key key catalog = add (package_parts (split key b'/')) (through_last key b'/') catalog

unfoldable pub add_keys : List String → Catalog → Catalog
add_keys [] catalog = catalog
add_keys (key ∷ more) catalog = add_keys more (add_key key catalog)

module _ {W : Type 0} (consul : Consul W) where
  -- `NewPackageCatalog`
  unfoldable pub new_package_catalog : String → Exec W Catalog
  new_package_catalog repository_root =
      consul.keys repository_root "" >>= λ ks. pure (add_keys (sort less ks) [])

-- `names`
unfoldable pub names : Catalog → List String
names catalog = sort less (keys catalog)

-- `c.catalog[name][repoIdx][verIdx]` for the sorted version indexes
unfoldable pub keys_of_versions : List String → Versions → List String
keys_of_versions [] m = []
keys_of_versions (v ∷ vs) m = get_or (get v m) "" ∷ keys_of_versions vs m

unfoldable pub keys_of_repositories : List String → Repositories → List String
keys_of_repositories [] m = []
keys_of_repositories (r ∷ rs) m =
    let versions = get_or (get r m) [] in
    keys_of_versions (sort less (keys versions)) versions ++ keys_of_repositories rs m

-- `packageKeys()[name]`
unfoldable pub package_keys : Catalog → String → List String
package_keys catalog name =
    let repos = get_or (get name catalog) [] in keys_of_repositories (sort less (keys repos)) repos
