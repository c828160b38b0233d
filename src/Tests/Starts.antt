-- ===== src/Tests/Starts.antt =====
-- Runs of main.go: the secrets of Vault and the start of the program.
use mathlib.Core.Option.{get_or}
use mantl_api.Prelude.{ℕ, String, false, Option, none, some, List, [], ◌∷◌, inl, inr}
use mantl_api.Prelude.Dict
use mantl_api.Prelude.Dict.{Map, put}
use mantl_api.Prelude.Int.{pos}
use mantl_api.Prelude.Outcome.{ok, err}
use mantl_api.Json.{bool, str, obj, Fields, end, field}
use mantl_api.Install.Source.{Host}
use mantl_api.Install.Operations.{Env}
use mantl_api.Main.Settings.{Viper, Vault, Secret}
use mantl_api.Main.Start.{Machine, Running}
use mantl_api.Main.Start.Wired.{Wired}
use mantl_api.Http.{HttpClient}
use mantl_api.Mesos.{Mesos}
use mantl_api.Prelude.Exec.Keeps.{Keeps}
use mantl_api.Consul.{Consul}
use mantl_api.Tests.{consul}
use mantl_api.Tests.World.{env}

-- The world is one map, of the settings and the keys of Consul.
abbrev World : Type 0
World = Map String

abbrev viper : Viper World ℕ
viper = record {
  get_string = λ w k. get_or (Dict.get k w) "";
  get_bool = λ w k. false;
  get_int = λ w k. pos 10;
  get_string_map = λ w k. end;
  set = put;
  set_config_file = λ f w. w;
  read_in_config = λ w. (ok tt, w);
}

abbrev secret : Secret ℕ
secret = record {
  secrets = field "marathon-password" (str "hidden") end;
  is_wrapped = false;
  client_token = none;
}

abbrev vault : Vault World ℕ
vault = record {
  read_environment = λ w. (ok tt, w);
  new_client = λ w. (ok tt, w);
  unwrap = λ wrapped w. (err "no value found", w);
  read = λ token path w. (ok (some secret), w);
}

-- a token, and the addresses of the clients
abbrev given : World
given =
    ("vault-token", "t") ∷ ("marathon", "a") ∷ ("mesos", "b") ∷ ("zookeeper", "c:2181,d:2181") ∷ []

abbrev unlocked : World
unlocked = put "marathon-password" "hidden" given

-- a Consul without services, which keeps its keys in the world
abbrev host : Host World
host = record {
  visits = λ path w. (ok [], w);
  rel = λ base path. ok "spark.json";
  read_file = λ path w. (ok "text", w);
  temp_dir = λ name w. (ok "/tmp", w);
  remove_all = λ path w. (ok tt, w);
  run_git = λ args w. (ok tt, w);
  now = λ w. (ok "now", w);
  parse_time = λ s. ok (pos 7);
}

abbrev machine : Machine World ℕ
machine = record {
  viper = viper;
  vault = vault;
  system = record { expand_env = λ w s. s; stat = λ path w. (err "no such file", w) };
  url_parser = λ u. ok ("http", u, "");
  new_consul = λ config w. (ok consul, w);
  files = record { exists = λ path. false; read = λ path. ok "" };
  host = host;
  int64 = λ n. some (pos n);
  env = λ c. record env {
    consul = c;
    state_decoder = λ text. ok (record {
      completed_frameworks = [];
      frameworks = [];
      unregistered_frameworks = [];
      flags = record { authenticate = "false"; authenticate_slaves = "false" };
    });
  };
}

abbrev client_at : String → String → HttpClient
client_at location password = record {
  location = location;
  protocol = "http";
  path = "";
  username = "";
  password = password;
  no_verify_ssl = false;
}

abbrev mesos : Mesos
mesos = record {
  principal = "";
  secret = "";
  secret_path = "";
  http_client = client_at "http://b" "";
}

abbrev mesos_settings : Fields ℕ
mesos_settings = field "principal" (str "") (
    field "secret" (str "")
      (field "secret-path" (str "") (field "authentication-enabled" (bool false) end)))

abbrev running : Running World ℕ
running = record {
  consul = consul;
  refresh_interval = pos 10;
  listen = "";
  api = record {
    install = record {
      marathon = record { http_client = client_at "http://a" "hidden" };
      mesos = some mesos;
      zk_servers = "c:2181" ∷ "d:2181" ∷ [];
      api_config =
          field "mantl"
            (obj (
              field "zookeeper" (obj (field "hosts" (str "c:2181,d:2181") end))
                (field "mesos" (obj mesos_settings) end)))
            end;
    };
    mesos = mesos;
  };
}

abbrev synchronized : World
synchronized =
    put "mantl-install/repository/0/updated" "now"
      (put "mantl-install/repository/0/name" "mantl" unlocked)
