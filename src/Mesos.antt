-- ===== src/Mesos.antt =====
-- mesos/mesos.go: the state of the Mesos master, the frameworks in it, and their shutdown. How the
-- state is read from JSON is the decoder's matter, and a parameter here.
pub mod Laws
use Prim.Native.String.{◌++◌}
use mantl_api.Prelude.{
  ℕ, String, ◌==◌, Bool, true, false, ◌||◌, Option, none, some, List, [], ◌∷◌, eqb, if◌then◌else◌,
}
use mantl_api.Prelude.Lists.{length}
use mantl_api.Prelude.Dict.{Map, put, values}
use mantl_api.Prelude.Int.{show_nat}
use mantl_api.Prelude.Text.{equal_fold, trim_space}
use mantl_api.Prelude.Outcome.{Result, ok, err, panic}
use mantl_api.Prelude.Outcome as R
use mantl_api.Prelude.Exec.{Exec, pure, fail, lift, ◌>>=◌}
use mantl_api.Http.{UrlParser, HttpClient, new_http_client, Network, http_get, http_post}

pub record Mesos : Type 0 where
  pub principal : String
  pub secret : String
  pub secret_path : String
  pub http_client : HttpClient

pub record Task : Type 0 where
  pub framework_id : String
  pub id : String
  pub name : String
  pub slave_id : String
  pub state : String

-- `N` is the type of `float64`.
pub record Framework (N : Type 0) : Type 0 where
  pub name : String
  pub id : String
  pub pid : String
  pub active : Bool
  pub hostname : String
  pub user : String
  pub registered_time : N
  pub reregistered_time : N
  pub tasks : List Task

pub record Flags : Type 0 where
  pub authenticate : String
  pub authenticate_slaves : String

-- A framework that is `null` in the document is a nil pointer, `none`.
pub record State (N : Type 0) : Type 0 where
  pub completed_frameworks : List (Option (Framework N))
  pub frameworks : List (Option (Framework N))
  pub unregistered_frameworks : List String
  pub flags : Flags

-- `json.Unmarshal` into a `State`
abbrev pub StateDecoder : Type 0 → Type 0
StateDecoder N = String → Result (State N)

-- A file system: whether a file is there, and its text.
pub record Files : Type 0 where
  pub exists : String → Bool
  pub read : String → Result String

-- the `log.Fatalf` of a secret that cannot be read ends the process
secret_in : Result String → Result String
secret_in (ok text) = ok (trim_space text)
secret_in (err e) = panic
secret_in panic = panic

-- `readSecret`
unfoldable pub read_secret : Files → String → Result String
unfolding secret_in
read_secret fs path =
    if path == "" then ok "" else if fs.exists path then secret_in (fs.read path) else ok ""

-- `NewMesos`
unfoldable pub new_mesos : Files → UrlParser → String → String → String → Bool → Result Mesos
unfolding read_secret new_http_client
new_mesos fs parse url principal secret_path no_verify_ssl =
    R.◌>>=◌ (read_secret fs secret_path) λ secret.
      R.◌>>=◌ (new_http_client parse url principal secret no_verify_ssl) λ client. ok (record {
        principal = principal;
        secret = secret;
        secret_path = secret_path;
        http_client = client;
      })

-- `strconv.ParseBool`
unfoldable pub parse_bool : String → Result Bool
parse_bool s =
    if s == "1" || s == "t" || s == "T" || s == "true" || s == "TRUE" || s == "True"
    then ok true
    else if s == "0" || s == "f" || s == "F" || s == "false" || s == "FALSE" || s == "False"
    then ok false
    else err ("strconv.ParseBool: parsing " ++ s ++ ": invalid syntax")

module _ {N : Type 0} where
  -- A loop that reads a field of every framework panics on a nil pointer.
  unfoldable pub dereferenced : List (Option (Framework N)) → Result (List (Framework N))
  dereferenced [] = ok []
  dereferenced (none ∷ fws) = panic
  dereferenced (some fw ∷ fws) = R.◌>>=◌ (dereferenced fws) λ rest. ok (fw ∷ rest)

  -- the loop of `FindFrameworks`: the frameworks of a name, by their ids
  unfoldable pub matching : String → List (Framework N) → Map (Framework N) → Map (Framework N)
  matching name [] found = found
  matching name (fw ∷ fws) found =
      matching name fws (if equal_fold fw.name name then put fw.id fw found else found)

  -- none, the one, or an error
  unfoldable pub only : String → List (Framework N) → Result (Option (Framework N))
  only name [] = ok none
  only name (fw ∷ []) = ok (some fw)
  only name fws = err ("There are " ++ show_nat (length fws) ++ " " ++ name ++ " frameworks.")

module _ {W N : Type 0} (net : Network W) (decode : StateDecoder N) where
  -- `state`
  unfoldable pub state : Mesos → Exec W (State N)
  state m =
      http_get net m.http_client "/master/state.json" >>= λ req. lift (decode req.response_body)

  -- `Frameworks`
  unfoldable pub frameworks : Mesos → Exec W (List (Option (Framework N)))
  frameworks m = state m >>= λ s. pure s.frameworks

  -- `CompletedFrameworks`
  unfoldable pub completed_frameworks : Mesos → Exec W (List (Option (Framework N)))
  completed_frameworks m = state m >>= λ s. pure s.completed_frameworks

  -- `FindFrameworks`
  unfoldable pub find_frameworks : Mesos → String → Exec W (List (Framework N))
  find_frameworks m name = state m >>= λ s.
      lift (dereferenced s.frameworks) >>= λ fws. pure (values (matching name fws []))

  -- `FindFramework`
  unfoldable pub find_framework : Mesos → String → Exec W (Option (Framework N))
  find_framework m name = find_frameworks m name >>= λ fws. lift (only name fws)

  -- `RequiresAuthentication`
  unfoldable pub requires_authentication : Mesos → Exec W Bool
  requires_authentication m = state m >>= λ s. lift (parse_bool s.flags.authenticate)

  -- `Shutdown`
  unfoldable pub shutdown : Mesos → String → Exec W (Unit {0})
  shutdown m framework_id =
      http_post net m.http_client "/master/teardown" ("frameworkId=" ++ framework_id) >>= λ req.
      if eqb req.response.status 200
      then pure tt
      else fail (
          "Could not shutdown framework "
          ++ framework_id
          ++ ": "
          ++ show_nat req.response.status
          ++ " "
          ++ req.response_text)

  unfoldable pub shutdown_found : Mesos → Option (Framework N) → Exec W (Unit {0})
  shutdown_found m none = pure tt
  shutdown_found m (some fw) = shutdown m fw.id

  -- `ShutdownFrameworkByName`
  unfoldable pub shutdown_framework_by_name : Mesos → String → Exec W (Unit {0})
  unfolding shutdown_found
  shutdown_framework_by_name m name = find_framework m name >>= λ found. shutdown_found m found
