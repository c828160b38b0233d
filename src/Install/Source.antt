-- ===== src/Install/Source.antt =====
-- install/source.go and `SyncSources` of install/install.go: the copy of package repositories into
-- Consul.
pub mod Laws
pub mod Copy
pub mod Keys
use Prim.Native.String.{◌++◌}
use mantl_api.Prelude.{
  ℕ, String, ◌==◌, Bool, true, false, not, ◌&&◌, ◌||◌, Option, none, some, List, [], ◌∷◌,
  ◌++◌ as ◌<>◌, eqb, if◌then◌else◌,
}
use mantl_api.Prelude.Text.{ext}
use mantl_api.Prelude.Slash.{path_join}
use mantl_api.Prelude.Int.{ℤ, pos, negsuc, show}
use mantl_api.Prelude.Outcome.{Result}
use mantl_api.Prelude.Exec.{Exec, pure, fail, lift, ◌>>=◌, ◌>>◌, attempt}
use mantl_api.Consul.{Consul}
use mantl_api.Install.Repository.{repository_root}

-- `FileSystem` and `Git`, of the type `SourceType`, an 8-bit number
abbrev pub file_system : ℕ
file_system = 0

abbrev pub git : ℕ
git = 1

pub record Source : Type 0 where
  pub name : String
  pub path : String
  pub source_type : ℕ
  pub branch : String
  pub index : ℤ

-- `IsValid`
unfoldable pub is_valid : Source → Bool
is_valid s = not (s.name == "") && not (s.path == "")

-- The disk, the clock and `git`. Times are seconds after the zero time.
pub record Host (W : Type 0) : Type 0 where
  -- the paths that `filepath.Walk` hands to its callback, in order
  pub visits : String → Exec W (List String)
  -- `filepath.Rel`
  pub rel : String → String → Result String
  pub read_file : String → Exec W String
  pub temp_dir : String → Exec W String
  pub remove_all : String → Exec W (Unit {0})
  pub run_git : List String → Exec W (Unit {0})
  -- the time, as `time.UnixDate` writes it, and `time.Parse` of such a text
  pub now : Exec W String
  pub parse_time : String → Result ℤ

-- `rootKey`
unfoldable pub root_key : Source → String
root_key s = path_join (repository_root ∷ show s.index ∷ [])

-- `sourceTimestampKey`
unfoldable pub source_timestamp_key : Source → String
source_timestamp_key s = path_join (root_key s ∷ "updated" ∷ [])

-- `isSourceArtifact`
unfoldable pub is_source_artifact : String → Bool
is_source_artifact path = ext path == ".json"

-- the arguments of the clone
unfoldable pub git_args : Source → String → List String
git_args s dest =
    ("clone" ∷ s.path ∷ dest ∷ "--single-branch" ∷ "--depth" ∷ "1" ∷ [])
    <> (if s.branch == "" then [] else "--branch" ∷ s.branch ∷ [])

is_zero : ℤ → Bool
is_zero (pos n) = eqb n 0
is_zero (negsuc n) = false

module _ {W : Type 0} (consul : Consul W) (host : Host W) where
  time_in : Option String → Result ℤ
  time_in none = Result.ok (pos 0)
  time_in (some text) = host.parse_time text

  -- `sourceLastUpdated`: the zero time if there is no timestamp
  unfoldable pub source_last_updated : Source → Exec W ℤ
  unfolding time_in
  source_last_updated s = consul.get (source_timestamp_key s) >>= λ kp. lift (time_in kp)

  -- `addSourceArtifact`
  unfoldable pub add_source_artifact : String → String → Exec W (Unit {0})
  add_source_artifact key text = consul.put key text

  -- `setName`
  unfoldable pub set_name : Source → Exec W (Unit {0})
  set_name s = consul.put (path_join (root_key s ∷ "name" ∷ [])) s.name

  -- `setTimestamp`
  unfoldable pub set_timestamp : Source → Exec W (Unit {0})
  set_timestamp s = host.now >>= λ ts. consul.put (source_timestamp_key s) ts

  -- The callback of the walk. It does not look at the error that the walk hands to it.
  unfoldable pub visit : Source → String → String → Exec W (Unit {0})
  visit s source_path file_path =
      if is_source_artifact file_path
      then (lift (host.rel source_path file_path) >>= λ relkey. host.read_file file_path >>= λ text.
          add_source_artifact (path_join (root_key s ∷ relkey ∷ [])) text)
      else pure tt

  -- the walk stops at the first error of its callback
  unfoldable pub visit_all : Source → String → List String → Exec W (Unit {0})
  visit_all s source_path [] = pure tt
  visit_all s source_path (p ∷ ps) = visit s source_path p >> visit_all s source_path ps

  -- `sync`
  unfoldable pub sync : Source → String → Exec W (Unit {0})
  sync s source_path = host.visits source_path >>= λ ps.
      visit_all s source_path ps >> (set_name s >> set_timestamp s)

  -- the deferred removal of the clone
  finally_remove : String → Exec W (Unit {0}) → Exec W (Unit {0})
  finally_remove dir m w = let (r, w') = m w in (r, (host.remove_all dir w').1)

  -- `syncGitSource`
  unfoldable pub sync_git_source : Source → Exec W (Unit {0})
  unfolding finally_remove
  sync_git_source s = host.temp_dir "mantl-install" >>= λ temp.
      let dest = path_join (temp ∷ s.name ∷ []) in
      finally_remove temp (
        host.run_git (git_args s dest)
        >> (attempt (host.remove_all (path_join (dest ∷ ".git" ∷ []))) (λ _. pure tt) (λ e. pure tt)
            >> sync s dest))

  -- `syncSource`
  unfoldable pub sync_source : Source → Exec W (Unit {0})
  sync_source s =
      if eqb s.source_type file_system
      then sync s s.path
      else if eqb s.source_type git
      then sync_git_source s
      else fail "Unknown source type"

  -- `SyncSources`: a source is synchronized if it never was, if that cannot be told, or by force.
  unfoldable pub sync_sources : List Source → Bool → Exec W (Unit {0})
  unfolding is_zero
  sync_sources [] force = pure tt
  sync_sources (s ∷ more) force =
      attempt (source_last_updated s) (λ ts. if is_zero ts || force then sync_source s else pure tt)
        (λ e. sync_source s)
      >> sync_sources more force
