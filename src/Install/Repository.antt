-- ===== src/Install/Repository.antt =====
-- install/repository.go: the repositories that are kept in Consul.
pub mod Order
pub mod Bounds
use mantl_api.Prelude.{String, Option, none, some, List, [], ◌∷◌, reverse}
use mantl_api.Prelude.Sort.{sort}
use mantl_api.Prelude.Text.{split, trim_suffix}
use mantl_api.Prelude.Slash.{path_join}
use mantl_api.Prelude.Int.{ℤ, int_less, show, atoi}
use mantl_api.Prelude.Exec.{Exec, pure, fail, ◌>>=◌, attempt}
use mantl_api.Consul.{Consul}

abbrev pub repository_root : String
repository_root = "mantl-install/repository"

abbrev pub apps_root : String
apps_root = "mantl-install/apps/"

pub record Repository : Type 0 where
  pub name : String
  pub index : ℤ

-- `PackagesKey`
unfoldable pub packages_key : Repository → String
packages_key r = path_join (repository_root ∷ show r.index ∷ "repo/packages" ∷ [])

-- the last element of `strings.Split(strings.TrimSuffix(key, "/"), "/")`
unfoldable pub last_or_empty : List String → String
last_or_empty [] = ""
last_or_empty (s ∷ []) = s
last_or_empty (s ∷ t ∷ ts) = last_or_empty (t ∷ ts)

unfoldable pub last_part : String → String
unfolding last_or_empty
last_part key = last_or_empty (split (trim_suffix key "/") b'/')

unfoldable pub keep_index : Option ℤ → List ℤ → List ℤ
keep_index none idxs = idxs
keep_index (some i) idxs = i ∷ idxs

-- the loop of `repositoryIndexes`; a key that is no number is skipped
unfoldable pub indexes_of : List String → List ℤ
unfolding keep_index
indexes_of [] = []
indexes_of (key ∷ keys) = keep_index (atoi (last_part key)) (indexes_of keys)

module _ {W : Type 0} (consul : Consul W) where
  -- `repositoryIndexes`
  unfoldable pub repository_indexes : Exec W (List ℤ)
  repository_indexes =
      consul.keys "mantl-install/repository/" "/" >>= λ keys. pure (sort int_less (indexes_of keys))

  name_or_empty : Option String → String
  name_or_empty none = ""
  name_or_empty (some name) = name

  -- `repositoryName`: a key that is not there gives the empty name, and no error.
  unfoldable pub repository_name : ℤ → Exec W String
  unfolding name_or_empty
  repository_name idx = consul.get (path_join (repository_root ∷ show idx ∷ "name" ∷ [])) >>= λ kp.
      pure (name_or_empty kp)

  -- the loop of `getRepositories`: a repository whose name cannot be read is left out
  unfoldable pub named : List ℤ → Exec W (List Repository)
  named [] = pure []
  named (idx ∷ idxs) =
      attempt (repository_name idx)
        (λ name. named idxs >>= λ rest. pure (record { name = name; index = idx } ∷ rest))
        (λ e. named idxs)

  -- `getRepositories`
  unfoldable pub get_repositories : Exec W (List Repository)
  get_repositories = repository_indexes >>= named
