-- ===== src/Tests/Handlers.antt =====
-- Runs of api/api.go and install/consul_monitor.go.
use mantl_api.Prelude.{
  ℕ, String, ◌≡◌, refl, ◌≢◌, ◌↔◌, ◌==◌, Bool, true, false, Option, none, some, List, [], ◌∷◌, ◌⊎◌,
  inl, inr, if◌then◌else◌,
}
use mantl_api.Prelude.Dict.{get}
use mantl_api.Prelude.Lists.{select}
use mantl_api.Prelude.Outcome.{ok, panic}
use mantl_api.Http.{Network, HttpRequest}
use mantl_api.Json.{end}
use mantl_api.Marathon.{apps}
use mantl_api.Mesos.{shutdown}
use mantl_api.Install.Package.Request.{PackageRequest, new_package_request}
use mantl_api.Install.Labels.{label}
use mantl_api.Install.Operations.{
  Env, Install, ZookeeperNode, find_installed, framework_name, delete_nodes, post_uninstall,
  uninstall_package,
}
use mantl_api.Api.{
  HttpCall, Encoders, Api, parse_package_request, uninstall_package_handler, shutdown_framework,
}
use mantl_api.Api.Response.{fresh}
use mantl_api.Api.Laws.{
  Answers, Uninstalls, uninstall_package_handler-Uninstalls, shutdown_framework-202,
}
use mantl_api.Install.Package.{Package, PackageVersion}
use mantl_api.Install.Operations.{install_package}
use mantl_api.Prelude.Text.{equal_fold, trim_space}
use mantl_api.Tests.{codec, mustache, spark, net, client, consul, store}
use mantl_api.Tests.World.{labelled, env, mesos, installer, parsed_request}

abbrev enc : Encoders ℕ
enc = record {
  packages_json = λ ps. ok "[]";
  package_json = λ p. ok "{}";
  frameworks_json = λ fs. ok "[]";
  printf = λ s. s;
  is_zero = λ n. true;
}

abbrev api : Api ℕ
api = record { install = installer; mesos = mesos }

abbrev call : String → HttpCall
call body = record { name = ""; id = "f1"; completed = false; body = ok body }

parsed : parse_package_request env enc api (call "request") store ≡ (ok parsed_request, store)
unfolding parse_package_request new_package_request mantl_api.Tests.parse
    mantl_api.Install.Package.Request.decode mantl_api.Json.to_struct
    mantl_api.Prelude.Text.equal_fold mantl_api.Json.to_string
    mantl_api.Install.Package.Request.check_name
parsed = refl

found_one : find_installed env installer parsed_request store ≡ (ok (labelled ∷ []), store)
unfolding find_installed apps mantl_api.Http.http_get
    mantl_api.Install.Operations.filter_by_package_name select label get
found_one = refl

uninstall_package_handler-Uninstalls_example :
    Uninstalls env enc api
      (labelled ∷ [])
      store
      (uninstall_package_handler env enc api (call "request") fresh store)
uninstall_package_handler-Uninstalls_example =
    uninstall_package_handler-Uninstalls env enc api (call "request") parsed_request (labelled ∷ [])
      store store parsed found_one

shut : (shutdown env.net env.state_decoder mesos "f1" store).0 ≡ ok tt
unfolding shutdown mantl_api.Http.http_post
shut = refl

calm : (shutdown env.net env.state_decoder mesos "f1" store).0 ≢ panic
calm h = cc (shut)

shutdown_framework-202_example :
    Answers env enc api (shutdown_framework env enc api (call "") fresh store) 202
    × ((shutdown_framework env enc api (call "") fresh store).1
        ≡ (shutdown env.net env.state_decoder mesos "f1" store).1)
shutdown_framework-202_example = shutdown_framework-202 env enc api (call "") store calm
