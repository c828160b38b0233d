-- ===== src/Tests/World.antt =====
-- The clients and the requests of the runs.
use mantl_api.Prelude.{ℕ, String, true, false, some, List, [], ◌∷◌}
use mantl_api.Prelude.Dict.{Map, put}
use mantl_api.Prelude.Outcome.{ok, err}
use mantl_api.Json.{end}
use mantl_api.Marathon.{App, empty_app}
use mantl_api.Mesos.{Mesos}
use mantl_api.Zookeeper.{ZkClient}
use mantl_api.Install.Package.Request.{PackageRequest}
use mantl_api.Install.Labels.{Base64}
use mantl_api.Install.Operations.{Env, Install, ZookeeperNode}
use mantl_api.Tests.{codec, mustache, net, client, consul}

abbrev pub base64 : Base64
base64 = record { encode = λ s. s; decode = λ s. ok s }

abbrev pub app : App ℕ
app = record (empty_app 0) { id = "/spark"; labels = some (("owner", "me") ∷ []) }

-- the application that is made of the package
abbrev pub labels : Map String
labels =
    ("owner", "me")
    ∷ ("MANTL_PACKAGE_NAME", "spark")
    ∷ ("MANTL_PACKAGE_VERSION", "1.5")
    ∷ ("MANTL_PACKAGE_INDEX", "0")
    ∷ ("MANTL_PACKAGE_IS_FRAMEWORK", "true")
    ∷ ("MANTL_PACKAGE_UNINSTALL", "uninstall")
    ∷ ("MANTL_PACKAGE_FRAMEWORK_NAME", "spark")
    ∷ ("traefik.enable", "false")
    ∷ []

abbrev pub labelled : App ℕ
labelled = record app { labels = some labels }

abbrev pub zk : ZkClient (Map String)
zk = record {
  connect = λ servers w. (ok tt, w);
  close = λ w. (ok tt, w);
  children = λ key w. (ok [], w);
  delete = λ key w. (ok tt, put key "" w);
}

abbrev pub nodes : List ZookeeperNode
nodes = record { path = "/spark"; always = true } ∷ record { path = "/kept"; always = false } ∷ []

abbrev pub env : Env (Map String) ℕ
env = record {
  consul = consul;
  net = net 200;
  zk = zk;
  stack = 9;
  codec = codec;
  app_codec = record {
    app_of = λ s. ok app;
    apps_of = λ s. ok (labelled ∷ app ∷ []);
    json_of = λ a. ok "app";
  };
  state_decoder = λ s. err "no state";
  uninstall_nodes = λ s. ok nodes;
  mustache = mustache;
  base64 = base64;
}

abbrev pub mesos : Mesos
mesos = record { principal = ""; secret = ""; secret_path = ""; http_client = client }

abbrev pub installer : Install ℕ
installer = record {
  marathon = record { http_client = client };
  mesos = some mesos;
  zk_servers = [];
  api_config = end;
}

abbrev pub request : PackageRequest ℕ
request = record {
  name = "spark";
  version = "";
  app_id = "spark";
  config = end;
  uninstall_options = end;
}

abbrev pub parsed_request : PackageRequest ℕ
parsed_request = record {
  name = "spark";
  version = "";
  app_id = "";
  config = end;
  uninstall_options = end;
}
