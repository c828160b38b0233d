-- ===== src/Install/Operations/Calls.antt =====
-- The calls of Marathon and Mesos change no more of the world than the network does.
use Prim.Native.String.{◌++◌}
use mantl_api.Prelude.Int.{show_nat}
use mantl_api.Prelude.{eqb, String, Option, none, some}
use mantl_api.Prelude.Outcome.{ok, err}
use mantl_api.Prelude.Exec.{Exec}
use mantl_api.Prelude.Exec.Keeps.{Keeps, lift-Keeps, if-Keeps, >>=-Keeps}
use mantl_api.Http.{
  HttpClient, HttpRequest, Request, Network, do_request, refused, http_get, http_delete, http_post,
}
use mantl_api.Marathon.{App, Marathon, create_app, destroy_app, apps}
use mantl_api.Mesos.{
  Mesos, Framework, state, dereferenced, frameworks, completed_frameworks, find_frameworks,
  find_framework, shutdown, shutdown_found, shutdown_framework_by_name,
}
use mantl_api.Install.Package.Request.{PackageRequest}
use mantl_api.Install.Operations.{Env, Install, find_installed, shutdown_named}

module _ {W V : Type 0} (view : W → V) (net : Network W)
    (sends : (request : Request) → Keeps view (net.send request)) where
  refused-Keeps :
      (o : Option String) {m : Exec W HttpRequest} → Keeps view m → Keeps view (refused o m)
  unfolding refused
  refused-Keeps none h = h
  refused-Keeps (some e) h = lift-Keeps view _

  pub do_request-Keeps :
      (c : HttpClient) (method path body : String) → Keeps view (do_request net c method path body)
  unfolding do_request
  do_request-Keeps c method path body =
      refused-Keeps _ (>>=-Keeps view (sends _) (λ response. lift-Keeps view _))

module _ {W N V : Type 0} (view : W → V) (env : Env W N)
    (sends : (request : Request) → Keeps view (env.net.send request)) where
  http_post-Keeps :
      (c : HttpClient) (path body : String) → Keeps view (http_post env.net c path body)
  unfolding http_post
  http_post-Keeps c path body = do_request-Keeps view env.net sends c _ path body

  http_get-Keeps : (c : HttpClient) (path : String) → Keeps view (http_get env.net c path)
  unfolding http_get
  http_get-Keeps c path = do_request-Keeps view env.net sends c _ path _

  http_delete-Keeps : (c : HttpClient) (path : String) → Keeps view (http_delete env.net c path)
  unfolding http_delete
  http_delete-Keeps c path = do_request-Keeps view env.net sends c _ path _

  pub create_app-Keeps :
      (m : Marathon) (app : App N) → Keeps view (create_app env.net env.app_codec m app)
  unfolding create_app
  create_app-Keeps m app = >>=-Keeps view (lift-Keeps view (env.app_codec.json_of app)) λ blob.
      >>=-Keeps view (http_post-Keeps m.http_client _ blob) λ req.
        if-Keeps view (eqb req.response.status 409)
          (lift-Keeps view (err "409 Conflict - application already exists"))
          (lift-Keeps view (ok req.response_text))

  pub destroy_app-Keeps :
      (m : Marathon) (id : String) → Keeps view (destroy_app env.net env.app_codec m id)
  unfolding destroy_app
  destroy_app-Keeps m id = >>=-Keeps view (http_delete-Keeps m.http_client _) λ req.
      if-Keeps view (eqb req.response.status 200) (lift-Keeps view (ok req.response_text)) (
        lift-Keeps view (err ("Failed deleting " ++ id ++ " from marathon: " ++ req.response_text)))

  apps-Keeps : (m : Marathon) → Keeps view (apps env.net env.app_codec m)
  unfolding apps
  apps-Keeps m = >>=-Keeps view (http_get-Keeps m.http_client _) λ req. lift-Keeps view _

  pub find_installed-Keeps :
      (i : Install N) (req : PackageRequest N) → Keeps view (find_installed env i req)
  unfolding find_installed
  find_installed-Keeps i req = >>=-Keeps view (apps-Keeps i.marathon) λ installed. lift-Keeps view _

  state-Keeps : (m : Mesos) → Keeps view (state env.net env.state_decoder m)
  unfolding state
  state-Keeps m = >>=-Keeps view (http_get-Keeps m.http_client _) λ req. lift-Keeps view _

  pub frameworks-Keeps : (m : Mesos) → Keeps view (frameworks env.net env.state_decoder m)
  unfolding frameworks
  frameworks-Keeps m = >>=-Keeps view (state-Keeps m) λ s. lift-Keeps view _

  pub completed_frameworks-Keeps :
      (m : Mesos) → Keeps view (completed_frameworks env.net env.state_decoder m)
  unfolding completed_frameworks
  completed_frameworks-Keeps m = >>=-Keeps view (state-Keeps m) λ s. lift-Keeps view _

  find_framework-Keeps :
      (m : Mesos) (name : String) → Keeps view (find_framework env.net env.state_decoder m name)
  unfolding find_framework find_frameworks
  find_framework-Keeps m name =
      >>=-Keeps view
        (>>=-Keeps view (state-Keeps m) (λ s.
          >>=-Keeps view (lift-Keeps view (dereferenced s.frameworks)) (λ fws. lift-Keeps view _)))
        λ fws. lift-Keeps view _

  pub shutdown-Keeps :
      (m : Mesos) (id : String) → Keeps view (shutdown env.net env.state_decoder m id)
  unfolding shutdown
  shutdown-Keeps m id = >>=-Keeps view (http_post-Keeps m.http_client _ _) λ req.
      if-Keeps view (eqb req.response.status 200) (lift-Keeps view (ok tt)) (
        lift-Keeps view (
          err (
            "Could not shutdown framework "
            ++ id
            ++ ": "
            ++ show_nat req.response.status
            ++ " "
            ++ req.response_text)))

  shutdown_found-Keeps :
      (m : Mesos) (found : Option (Framework N))
      → Keeps view (shutdown_found env.net env.state_decoder m found)
  unfolding shutdown_found
  shutdown_found-Keeps m none = lift-Keeps view _
  shutdown_found-Keeps m (some fw) = shutdown-Keeps m fw.id

  pub shutdown_named-Keeps :
      (m : Option Mesos) (name : String) → Keeps view (shutdown_named env m name)
  unfolding shutdown_named shutdown_framework_by_name
  shutdown_named-Keeps none name = lift-Keeps view _
  shutdown_named-Keeps (some m) name =
      >>=-Keeps view (find_framework-Keeps m name) λ found. shutdown_found-Keeps m found
