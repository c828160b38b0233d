-- ===== src/Tests/Cluster.antt =====
-- Runs of the clients of Marathon, Mesos and ZooKeeper.
use mantl_api.Prelude.{
  ℕ, String, ◌≡◌, refl, ◌≢◌, ◌↔◌, ◌==◌, Bool, true, false, Option, none, some, List, [], ◌∷◌,
  reverse, ◌⊎◌, inl, inr,
}
use mantl_api.Prelude.Dict.{Map, put}
use mantl_api.Prelude.Outcome.{Result, ok, err}
use mantl_api.Http.{HttpRequest, do_request, http_get, http_post}
use mantl_api.Marathon.{App, AppCodec, Marathon, empty_app, apps, create_app}
use mantl_api.Marathon.Laws.{apps-ok, create_app-status}
use mantl_api.Mesos.{
  Mesos, Framework, State, StateDecoder, state, find_framework, shutdown_framework_by_name,
}
use mantl_api.Mesos.Laws.{
  Searched, shut_after, find_framework-Searched, shutdown_framework_by_name-Searched,
}
use mantl_api.Zookeeper.{ZkClient, znode_tree, delete_each, delete_tree}
use Prim.Native.String.{◌++◌}
use mantl_api.Prelude.{map}
use mantl_api.Prelude.Exec.Attempts.{Attempts}
use mantl_api.Zookeeper.Laws.{delete_tree-eq-err}
use mantl_api.Zookeeper.Tree.{Forest, bare, tree}
use mantl_api.Prelude.{ap, sym, if◌then◌else◌}
use mantl_api.Tests.{net, client, answer, store}

got :
    do_request (net 200) client "GET" "/v2/apps/" "" store
    ≡ (ok (answer 200 "GET" "/v2/apps/" ""), store)
unfolding do_request
got = refl

abbrev marathon : Marathon
marathon = record { http_client = client }

abbrev app : App ℕ
app = record (empty_app 0) { id = "/spark" }

abbrev app_codec : AppCodec ℕ
app_codec = record { app_of = λ s. ok app; apps_of = λ s. ok (app ∷ []); json_of = λ a. ok "app" }

asked : apps (net 200) app_codec marathon store ≡ (ok (app ∷ []), store)
unfolding apps http_get
asked = refl

apps-ok_example :
    (req : HttpRequest) × (http_get (net 200) client "/v2/apps/" store ≡ (ok req, store))
    × (((req.response.status ≡ 200) × (app_codec.apps_of req.response_body ≡ ok (app ∷ [])))
        ⊎ ((req.response.status ≢ 200) × (app ∷ [] ≡ [])))
apps-ok_example = apps-ok (net 200) app_codec marathon store store (app ∷ []) asked

posted :
    http_post (net 500) client "/v2/apps/" "app" store
    ≡ (ok (answer 500 "POST" "/v2/apps/" "app"), store)
unfolding http_post
posted = refl

create_app-status_example :
    ((◌≡◌ {A = ℕ} 500 409)
      × (create_app (net 500) app_codec marathon app store
          ≡ (err "409 Conflict - application already exists", store)))
    ⊎ ((◌≢◌ {A = ℕ} 500 409)
        × (create_app (net 500) app_codec marathon app store ≡ (ok "body", store)))
create_app-status_example =
    create_app-status (net 500) app_codec marathon app "app" store store
      (answer 500 "POST" "/v2/apps/" "app") refl posted

abbrev framework : String → Framework ℕ
framework id = record {
  name = "Spark";
  id = id;
  pid = "";
  active = true;
  hostname = "";
  user = "";
  registered_time = 0;
  reregistered_time = 0;
  tasks = [];
}

abbrev master : State ℕ
master = record {
  completed_frameworks = [];
  frameworks = some (framework "a") ∷ some (framework "b") ∷ [];
  unregistered_frameworks = [];
  flags = record { authenticate = "false"; authenticate_slaves = "false" };
}

abbrev decoder : StateDecoder ℕ
decoder s = ok master

abbrev mesos : Mesos
mesos = record { principal = ""; secret = ""; secret_path = ""; http_client = client }

state_read : state (net 200) decoder mesos store ≡ (ok master, store)
unfolding state http_get
state_read = refl

find_framework-Searched_example :
    (r : Result (Option (Framework ℕ))) × (find_framework (net 200) decoder mesos "spark" store
      ≡ (r, store))
    × Searched "spark" master.frameworks r
find_framework-Searched_example =
    find_framework-Searched (net 200) decoder mesos "spark" store store master state_read

shutdown_framework_by_name-Searched_example :
    (r : Result (Option (Framework ℕ))) × Searched "spark" master.frameworks r
    × (shutdown_framework_by_name (net 200) decoder mesos "spark" store
        ≡ shut_after (net 200) decoder mesos "spark" r store)
shutdown_framework_by_name-Searched_example =
    shutdown_framework_by_name-Searched (net 200) decoder mesos "spark" store store master
      state_read

-- a node that is there, has no nodes below it, and is not to be deleted
abbrev zk : ZkClient (Map String)
zk = record {
  connect = λ servers w. (ok tt, w);
  close = λ w. (ok tt, w);
  children = λ key w. (ok [], w);
  delete = λ key w. (err "not empty", w);
}

kept : delete_tree zk 3 "/spark" store ≡ (err "not empty", store)
unfolding delete_tree znode_tree mantl_api.Zookeeper.walk mantl_api.Prelude.Sort.sort delete_each
kept = refl

delete_tree-eq-err_example :
    (znode_tree zk 3 "/spark" "" store ≡ (err "not empty", store))
    ⊎ ((nodes : List String) × (w1 : Map String) × (w2 : Map String) × (znode_tree zk 3 "/spark" ""
            store
          ≡ (ok nodes, w1))
        × Attempts zk.delete (map (λ node. "/spark" ++ "/" ++ node) (reverse nodes)) w1 w2
        × (zk.delete "/spark" w2 ≡ (err "not empty", store)))
delete_tree-eq-err_example = delete_tree-eq-err zk 3 "/spark" "not empty" store store kept

-- one node below "/spark"
abbrev planted : ZkClient (Map String)
planted = record {
  connect = λ servers w. (ok tt, w);
  close = λ w. (ok tt, w);
  children = λ key w. (ok (if key == "/spark" then "a" ∷ [] else []), w);
  delete = λ key w. (ok tt, put key "" w);
}

abbrev forest : Forest
forest = tree "a" bare bare
