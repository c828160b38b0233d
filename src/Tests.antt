-- ===== src/Tests.antt =====
-- The program on concrete inputs: an environment to run it in, and runs of it.
pub mod Config
pub mod Packages
pub mod Cluster
pub mod Requests
pub mod World
pub mod Handlers
pub mod Installs
pub mod Catalogs
pub mod Sources
pub mod Starts
pub mod Apps
pub mod Copies
pub mod Keys
pub mod Monitor
use mantl_api.Prelude.{
  ℕ, String, ◌==◌, Bool, true, false, Option, none, some, List, [], ◌∷◌, eqb, if◌then◌else◌,
}
use mantl_api.Prelude.Dict.{Map, get, put}
use mantl_api.Prelude.Int.{ℤ, pos}
use mantl_api.Prelude.Outcome.{Result, ok, err, panic}
use mantl_api.Prelude.Exec.{Exec}
use mantl_api.Json.{
  Value, null, bool, num, str, arr, obj, Items, nil, Fields, end, field, Codec, mismatch,
}
use mantl_api.Http.{HttpClient, Request, Response, HttpRequest, Network, request_for}
use mantl_api.Consul.{Consul}
use mantl_api.Install.Config.Definition.{PackageDefinition}
use mantl_api.Install.Config.Schema.{Group, group, property, none_left}
use mantl_api.Install.Config.Transform.{value_transformers}
use mantl_api.Install.Config.Render.{Mustache}

-- `{ "properties": { "cpus": { "type": "number", "default": 1 } } }`
abbrev pub schema_value : Value ℕ
schema_value = obj (
    field "properties"
      (obj (field "cpus" (obj (field "type" (str "number") (field "default" (num 1) end))) end))
      end)

abbrev pub cpus_group : Group ℕ
cpus_group = group "" "number" false none_left [] null (num 1)

abbrev pub schema : Group ℕ
schema = group "" "" false (property "cpus" cpus_group none_left) [] null null

-- texts and the values they stand for
abbrev pub documents : Map (Value ℕ)
documents =
    ("schema", schema_value)
    ∷ ("options", obj (field "cpus" (num 2) end))
    ∷ ("metadata", obj (field "version" (str "1.5") end))
    ∷ ("request", obj (field "name" (str "spark") end))
    ∷ ("nameless", obj (field "id" (str "/x") end))
    ∷ []

abbrev lookup : Option (Value ℕ) → Result (Value ℕ)
lookup none = err "invalid character"
lookup (some v) = ok v

pub parse : String → Result (Value ℕ)
unfolding get
parse s = lookup (get s documents)

abbrev pub codec : Codec ℕ
codec = record {
  truncate = pos;
  two_places = λ n. if eqb n 2 then "2.00" else "4.00";
  parse = parse;
  marshal = λ vs. ok "[]";
}

-- a template without tags
abbrev pub mustache : Mustache ℕ
mustache text = ok (λ m. text)

abbrev pub spark : PackageDefinition ℕ
spark = record {
  command_json = "";
  config_json = "schema";
  marathon_json = "app";
  package_json = "package";
  options_json = "options";
  uninstall_json = "uninstall";
  api_config = end;
  user_config = field "cpus" (num 4) end;
  name = "spark";
  version = "1.5";
  release = "0";
  framework = true;
  framework_name = "spark";
  value_transformers = value_transformers;
}

-- what Consul holds
abbrev pub store : Map String
store =
    ("mantl-install/repository/9/name", "a")
    ∷ ("mantl-install/repository/9/repo/packages/S/spark/0/config.json", "schema")
    ∷ ("mantl-install/repository/9/repo/packages/S/spark/0/package.json", "metadata")
    ∷ []

abbrev pub file_keys : List String
file_keys =
    "mantl-install/repository/9/repo/packages/S/spark/0/package.json"
    ∷ "mantl-install/repository/9/repo/packages/S/spark/0/config.json"
    ∷ "mantl-install/repository/9/name" ∷ []

-- Consul over an association list; two repositories are listed, the later first.
abbrev pub consul : Consul (Map String)
consul = record {
  get = λ key w. (ok (get key w), w);
  keys = λ prefix sep w. (
    ok (
        if sep == ""
        then file_keys
        else "mantl-install/repository/10/" ∷ "mantl-install/repository/9/" ∷ []),
    w,
  );
  put = λ key v w. (ok tt, put key v w);
  delete = λ key w. (ok tt, put key "" w);
  list = λ prefix w. (ok [], w);
  service = λ name tag w. (ok [], w);
}

-- a network in which every request is answered alike
abbrev pub net : ℕ → Network (Map String)
net status = record {
  refuses = λ method url. none;
  send = λ request w. (ok (record { status = status; body = ok "body" }), w);
}

abbrev pub client : HttpClient
client = record {
  location = "localhost:8080";
  protocol = "http";
  path = "";
  username = "";
  password = "";
  no_verify_ssl = false;
}

abbrev pub answer : ℕ → String → String → String → HttpRequest
answer status method path body = record {
  request = request_for client method path body;
  response = record { status = status; body = ok "body" };
  response_text = "body";
  response_body = "body";
}
