-- ===== src/Api.antt =====
-- api/api.go: the HTTP handlers. Routing is a third-party package; `routes` is the table that it is
-- given. A handler writes to a response and acts on the world; a panic drops the connection.
pub mod Response
pub mod Laws
pub mod Confined
use Prim.Native.String.{◌++◌}
use mantl_api.Prelude.{
  ℕ, String, ◌==◌, Bool, true, false, Option, none, some, List, [], ◌∷◌, map, if◌then◌else◌,
}
use mantl_api.Prelude.Lists.{length}
use mantl_api.Prelude.Int.{ℤ}
use mantl_api.Prelude.Outcome.{Result, ok, err, panic}
use mantl_api.Prelude.Exec.{Exec, pure, lift, ◌>>=◌, attempt}
use mantl_api.Marathon.{App}
use mantl_api.Mesos.{Mesos, Framework, frameworks, completed_frameworks, dereferenced, shutdown}
use mantl_api.Install.Package.{Package}
use mantl_api.Install.Package.Request.{PackageRequest, new_package_request}
use mantl_api.Install.Catalog.Index.{get_packages, get_package_by_name}
use mantl_api.Install.Operations.{Env, Install, install_package, find_installed, uninstall_package}
use mantl_api.Api.Response.{Writer, write_header, set_header, write_text}

-- `frameworkResponse`; times are in seconds, and `none` is the zero time.
pub record FrameworkResponse : Type 0 where
  pub name : String
  pub id : String
  pub active : Bool
  pub hostname : String
  pub user : String
  pub registered_time : ℤ
  pub reregistered_time : Option ℤ
  pub active_tasks : ℕ

-- What a handler reads of a request; the body may fail to be read.
pub record HttpCall : Type 0 where
  pub name : String
  pub id : String
  pub completed : Bool
  pub body : Result String

-- The standard library's part: the encoders of the responses, `fmt.Fprintf` with a format and no
-- operands, and a test for the number 0.
pub record Encoders (N : Type 0) : Type 0 where
  pub packages_json : List Package → Result String
  pub package_json : Option Package → Result String
  pub frameworks_json : List FrameworkResponse → Result String
  pub printf : String → String
  pub is_zero : N → Bool

pub record Api (N : Type 0) : Type 0 where
  pub install : Install N
  pub mesos : Mesos

-- `writeError`
unfoldable pub write_error : String → ℕ → String → Writer → Writer
write_error msg status e w = write_text (msg ++ ": " ++ e ++ "\n") (write_header status w)

-- `json.NewEncoder(w).Encode(v)`, or an error
encoded : Result String → (String → Writer) → (String → Writer) → Result Writer
encoded (ok text) write fault = ok (write text)
encoded (err e) write fault = ok (fault e)
encoded panic write fault = panic

as_json : Writer → Writer
as_json w = set_header "Content-Type" "application/json" w

-- `health`
unfoldable pub health : Writer → Writer
health w = write_text "OK" (write_header 200 w)

abbrev pub Handler : Type 0 → Type 0
Handler W = HttpCall → Writer → Exec W Writer

module _ {W N : Type 0} (env : Env W N) (enc : Encoders N) (api : Api N) where
  -- `packages`
  unfoldable pub packages : Writer → Exec W Writer
  unfolding as_json encoded
  packages w =
      attempt (get_packages env.consul env.codec)
        (λ ps. lift (
          encoded (enc.packages_json ps) (λ text. write_text text (as_json w))
            (λ e. write_error "Could not retrieve package list" 500 e (as_json w))))
        (λ e. pure (write_error "Could not retrieve package list" 500 e (as_json w)))

  -- `describePackage`
  unfoldable pub describe_package : HttpCall → Writer → Exec W Writer
  unfolding as_json encoded
  describe_package call w =
      attempt (get_package_by_name env.consul env.codec call.name)
        (λ pkg. lift (
          encoded (enc.package_json pkg) (λ text. write_text text (as_json w))
            (λ e. write_error ("Could not encode package " ++ call.name) 500 e (as_json w))))
        (λ e. pure (write_error ("Package " ++ call.name ++ " not found.") 404 e (as_json w)))

  read_request : Result String → Result (PackageRequest N)
  read_request (ok body) = new_package_request env.codec body
  read_request (err e) = err e
  read_request panic = panic

  -- `parsePackageRequest`
  unfoldable pub parse_package_request : HttpCall → Exec W (PackageRequest N)
  unfolding read_request
  parse_package_request call = lift (read_request call.body)

  -- `installPackage`
  unfoldable pub install_package_handler : HttpCall → Writer → Exec W Writer
  unfolding as_json
  install_package_handler call w =
      attempt (parse_package_request call)
        (λ req.
          attempt (install_package env api.install req)
            (λ answer. pure (write_text (enc.printf answer) (write_header 201 (as_json w))))
            (λ e. pure (write_error ("Could not install " ++ req.name ++ " package") 500 e w)))
        (λ e. pure (write_error "Could not parse package request" 400 e w))

  not_found : PackageRequest N → String
  not_found req =
      if req.app_id == ""
      then "Package " ++ req.name ++ " not found.\n"
      else "Package " ++ req.name ++ " (" ++ req.app_id ++ ") not found.\n"

  several : PackageRequest N → String
  several req =
      "There is more than 1 instance of the " ++ req.name
      ++ " package running. Please include the application id in the request.\n"

  -- what is done with the applications that were found
  unfoldable pub uninstall_found : PackageRequest N → Writer → List (App N) → Exec W Writer
  unfolding not_found several
  uninstall_found req w [] = pure (write_text (not_found req) (write_header 404 w))
  uninstall_found req w (app ∷ []) =
      attempt (uninstall_package env api.install (some app)) (λ _. pure (write_header 204 w))
        (λ e. pure (write_error ("Could not uninstall " ++ req.name ++ " package") 500 e w))
  uninstall_found req w (app ∷ other ∷ more) = pure (write_text (several req) (write_header 409 w))

  -- `uninstallPackage`
  unfoldable pub uninstall_package_handler : HttpCall → Writer → Exec W Writer
  uninstall_package_handler call w =
      attempt (parse_package_request call)
        (λ req.
          attempt (find_installed env api.install req) (uninstall_found req w)
            (λ e. pure (write_error "Could not retrieve installed packages" 500 e w)))
        (λ e. pure (write_error "Could not parse package request" 400 e w))

  -- one element of the list that `frameworks` encodes
  unfoldable pub framework_response : Framework N → FrameworkResponse
  framework_response fw = record {
    name = fw.name;
    id = fw.id;
    active = fw.active;
    hostname = fw.hostname;
    user = fw.user;
    registered_time = env.codec.truncate fw.registered_time;
    reregistered_time =
        if enc.is_zero fw.reregistered_time
        then none
        else some (env.codec.truncate fw.reregistered_time);
    active_tasks = length fw.tasks;
  }

  unfoldable pub listed_frameworks : Bool → Exec W (List (Framework N))
  listed_frameworks true =
      completed_frameworks env.net env.state_decoder api.mesos >>= λ fws. lift (dereferenced fws)
  listed_frameworks false =
      frameworks env.net env.state_decoder api.mesos >>= λ fws. lift (dereferenced fws)

  -- `frameworks`
  unfoldable pub frameworks_handler : HttpCall → Writer → Exec W Writer
  unfolding as_json encoded listed_frameworks
  frameworks_handler call w =
      attempt (listed_frameworks call.completed)
        (λ fws. lift (
          encoded (enc.frameworks_json (map framework_response fws))
            (λ text. write_text text (as_json w))
            (λ e. write_error "Could not encode frameworks %s" 500 e (as_json w))))
        (λ e. pure (write_error "Could not retrieve frameworks" 500 e (as_json w)))

  -- `shutdownFramework`: the status is written before the call
  unfoldable pub shutdown_framework : HttpCall → Writer → Exec W Writer
  shutdown_framework call w =
      let accepted = write_header 202 w in
      attempt (shutdown env.net env.state_decoder api.mesos call.id) (λ _. pure accepted)
        (λ e. pure (write_error ("Could not shutdown framework " ++ call.id) 500 e accepted))

  -- `deprecate`, with the name of the agent and the time of the call
  unfoldable pub deprecate :
      String
      → String
      → String
      → (HttpCall → Writer → Exec W Writer)
      → HttpCall
      → Writer
      → Exec W Writer
  deprecate agent now msg handle call w = handle call (
      set_header "Warning"
        ("299 " ++ agent ++ " \"Deprecated API. " ++ msg ++ "\" \"" ++ now ++ "\"") w)

  -- the routes of `Start`: method, pattern and handler
  unfoldable pub routes : String → String → List (String × String × Handler W)
  routes agent now =
      ("GET", "/health", λ call w. pure (health w))
      ∷ ("GET", "/1/packages", λ call w. packages w)
      ∷ ("GET", "/1/packages/:name", describe_package)
      ∷ (
        "POST",
        "/1/packages",
        deprecate agent now "Use /1/install instead." install_package_handler,
      )
      ∷ (
        "DELETE",
        "/1/packages",
        deprecate agent now "Use /1/install instead." uninstall_package_handler,
      )
      ∷ ("GET", "/1/frameworks", frameworks_handler)
      ∷ ("DELETE", "/1/frameworks/:id", shutdown_framework)
      ∷ ("POST", "/1/install", install_package_handler)
      ∷ ("DELETE", "/1/install", uninstall_package_handler)
      ∷ []

-- `NewApi`: the name of the agent, from an id and the host's name
unfoldable pub agent_name : String → String → String
agent_name id host = if id == "" then host else id ++ "." ++ host
