-- ===== src/Marathon.antt =====
-- marathon/marathon.go: the applications of Marathon and the calls of its API. How an application
-- is written in JSON is the encoder's matter, and a parameter here.
pub mod Laws
pub mod AppJson
use Prim.Native.String.{◌++◌}
use mantl_api.Prelude.{ℕ, String, Bool, Option, none, List, [], eqb, if◌then◌else◌}
use mantl_api.Prelude.Dict.{Map}
use mantl_api.Prelude.Int.{ℤ, pos}
use mantl_api.Prelude.Outcome.{Result, ok}
use mantl_api.Prelude.Outcome as R
use mantl_api.Prelude.Exec.{Exec, pure, fail, lift, ◌>>=◌}
use mantl_api.Http.{
  UrlParser, HttpClient, new_http_client, Network, HttpRequest, http_get, http_delete, http_post,
}

pub record PortMapping : Type 0 where
  pub container_port : ℤ
  pub host_port : ℤ
  pub service_port : ℤ
  pub protocol : String

pub record Parameter : Type 0 where
  pub key : String
  pub value : String

pub record Docker : Type 0 where
  pub image : String
  pub parameters : List Parameter
  pub privileged : Bool
  pub network : String
  pub port_mappings : List PortMapping
  pub force_pull_image : Bool

pub record Volume : Type 0 where
  pub container_path : String
  pub host_path : String
  pub mode : String

pub record Container : Type 0 where
  pub docker : Option Docker
  pub type : String
  pub volumes : List Volume

pub record HealthCheckCommand : Type 0 where
  pub value : String

pub record HealthCheck : Type 0 where
  pub path : String
  pub port_index : ℤ
  pub protocol : String
  pub grace_period_seconds : ℤ
  pub interval_seconds : ℤ
  pub timeout_seconds : ℤ
  pub max_consecutive_failures : ℤ
  pub command : Option HealthCheckCommand

-- `N` is the type of `float64`.
pub record UpgradeStrategy (N : Type 0) : Type 0 where
  pub minimum_health_capacity : N
  pub maximum_over_capacity : N

-- `labels` and `env` may be nil maps, which read as empty ones.
pub record App (N : Type 0) : Type 0 where
  pub args : List String
  pub backoff_factor : N
  pub backoff_seconds : ℤ
  pub cmd : String
  pub constraints : List (List String)
  pub container : Option Container
  pub cpus : N
  pub dependencies : List String
  pub disk : N
  pub env : Option (Map String)
  pub executor : String
  pub labels : Option (Map String)
  pub health_checks : List HealthCheck
  pub id : String
  pub instances : ℤ
  pub mem : N
  pub ports : List ℤ
  pub require_ports : Bool
  pub store_urls : List String
  pub upgrade_strategy : UpgradeStrategy N
  pub uris : List String
  pub user : String
  pub version : String

-- `json.Unmarshal` into an `App` and into an `AppResponse`, of which the applications are returned,
-- and `json.Marshal` of an `App`.
pub record AppCodec (N : Type 0) : Type 0 where
  pub app_of : String → Result (App N)
  pub apps_of : String → Result (List (App N))
  pub json_of : App N → Result String

-- `App{}` for a zero of `float64`
abbrev pub empty_app : {N : Type 0} → N → App N
empty_app zero = record {
  args = [];
  backoff_factor = zero;
  backoff_seconds = pos 0;
  cmd = "";
  constraints = [];
  container = none;
  cpus = zero;
  dependencies = [];
  disk = zero;
  env = none;
  executor = "";
  labels = none;
  health_checks = [];
  id = "";
  instances = pos 0;
  mem = zero;
  ports = [];
  require_ports = Bool.false;
  store_urls = [];
  upgrade_strategy = record { minimum_health_capacity = zero; maximum_over_capacity = zero };
  uris = [];
  user = "";
  version = "";
}

pub record Marathon : Type 0 where
  pub http_client : HttpClient

-- `NewMarathon`
unfoldable pub new_marathon : UrlParser → String → String → String → Bool → Result Marathon
unfolding new_http_client
new_marathon parse url username password no_verify_ssl =
    R.◌>>=◌ (new_http_client parse url username password no_verify_ssl)
      λ client. ok (record { http_client = client })

module _ {W N : Type 0} (net : Network W) (codec : AppCodec N) where
  -- `ToApp`
  unfoldable pub to_app : Marathon → String → Result (App N)
  to_app m app_json = codec.app_of app_json

  -- `if httpReq.Response.StatusCode != 200 { return nil, err }`, where `err` is nil
  apps_in : HttpRequest → Result (List (App N))
  apps_in req = if eqb req.response.status 200 then codec.apps_of req.response_body else ok []

  -- `Apps`
  unfoldable pub apps : Marathon → Exec W (List (App N))
  unfolding apps_in
  apps m = http_get net m.http_client "/v2/apps/" >>= λ req. lift (apps_in req)

  -- `CreateApp`
  unfoldable pub create_app : Marathon → App N → Exec W String
  create_app m app = lift (codec.json_of app) >>= λ blob.
      http_post net m.http_client "/v2/apps/" blob >>= λ req.
      if eqb req.response.status 409
      then fail "409 Conflict - application already exists"
      else pure req.response_text

  -- `DestroyApp`; the text of a failed deletion is not used by the callers.
  unfoldable pub destroy_app : Marathon → String → Exec W String
  destroy_app m app_id = http_delete net m.http_client ("/v2/apps" ++ app_id) >>= λ req.
      if eqb req.response.status 200
      then pure req.response_text
      else fail ("Failed deleting " ++ app_id ++ " from marathon: " ++ req.response_text)
