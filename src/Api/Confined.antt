-- ===== src/Api/Confined.antt =====
-- No handler of the API changes what Consul holds.
use mantl_api.Prelude.{String, Bool, true, false, List, [], ◌∷◌}
use mantl_api.Prelude.Lists.{All}
use mantl_api.Prelude.Exec.Keeps.{>>=-Keeps, Keeps, lift-Keeps, attempt-Keeps}
use mantl_api.Marathon.{App}
use mantl_api.Install.Package.Request.{PackageRequest}
use mantl_api.Install.Reading.{get_packages-Keeps, get_package_by_name-Keeps}
use mantl_api.Install.Operations.{Env}
use mantl_api.Install.Operations.Calls.{
  find_installed-Keeps, frameworks-Keeps, completed_frameworks-Keeps, shutdown-Keeps,
}
use mantl_api.Install.Operations.Confined.{Confined, install_package-Keeps, uninstall_package-Keeps}
use mantl_api.Api.Response.{Writer}
use mantl_api.Mesos.{dereferenced}
use mantl_api.Api.{
  Api, Encoders, HttpCall, Handler, packages, describe_package, parse_package_request,
  install_package_handler, uninstall_found, uninstall_package_handler, listed_frameworks,
  frameworks_handler, shutdown_framework, deprecate, routes,
}

module _ {W N V : Type 0} (view : W → V) (env : Env W N) (enc : Encoders N) (api : Api N)
    (h : Confined view env) where
  packages-Keeps : (w : Writer) → Keeps view (packages env enc api w)
  unfolding packages
  packages-Keeps w =
      attempt-Keeps view (get_packages-Keeps view env.consul env.codec h.reads)
        (λ ps. lift-Keeps view _) (λ e. lift-Keeps view _)

  describe_package-Keeps :
      (call : HttpCall) (w : Writer) → Keeps view (describe_package env enc api call w)
  unfolding describe_package
  describe_package-Keeps call w =
      attempt-Keeps view (get_package_by_name-Keeps view env.consul env.codec h.reads call.name)
        (λ pkg. lift-Keeps view _) (λ e. lift-Keeps view _)

  parse_package_request-Keeps :
      (call : HttpCall) → Keeps view (parse_package_request env enc api call)
  unfolding parse_package_request
  parse_package_request-Keeps call = lift-Keeps view _

  install_package_handler-Keeps :
      (call : HttpCall) (w : Writer) → Keeps view (install_package_handler env enc api call w)
  unfolding install_package_handler
  install_package_handler-Keeps call w =
      attempt-Keeps view (parse_package_request-Keeps call)
        (λ req.
          attempt-Keeps view (install_package-Keeps view env h api.install req)
            (λ answer. lift-Keeps view _) (λ e. lift-Keeps view _))
        (λ e. lift-Keeps view _)

  uninstall_found-Keeps :
      (req : PackageRequest N) (w : Writer) (apps : List (App N))
      → Keeps view (uninstall_found env enc api req w apps)
  unfolding uninstall_found
  uninstall_found-Keeps req w [] = lift-Keeps view _
  uninstall_found-Keeps req w (app ∷ []) =
      attempt-Keeps view (uninstall_package-Keeps view env h api.install _) (λ _. lift-Keeps view _)
        (λ e. lift-Keeps view _)
  uninstall_found-Keeps req w (app ∷ other ∷ more) = lift-Keeps view _

  uninstall_package_handler-Keeps :
      (call : HttpCall) (w : Writer) → Keeps view (uninstall_package_handler env enc api call w)
  unfolding uninstall_package_handler
  uninstall_package_handler-Keeps call w =
      attempt-Keeps view (parse_package_request-Keeps call)
        (λ req.
          attempt-Keeps view (find_installed-Keeps view env h.sends api.install req)
            (uninstall_found-Keeps req w) (λ e. lift-Keeps view _))
        (λ e. lift-Keeps view _)

  listed_frameworks-Keeps :
      (completed : Bool) → Keeps view (listed_frameworks env enc api completed)
  unfolding listed_frameworks
  listed_frameworks-Keeps true =
      >>=-Keeps view (completed_frameworks-Keeps view env h.sends api.mesos)
        λ fws. lift-Keeps view (dereferenced fws)
  listed_frameworks-Keeps false =
      >>=-Keeps view (frameworks-Keeps view env h.sends api.mesos)
        λ fws. lift-Keeps view (dereferenced fws)

  frameworks_handler-Keeps :
      (call : HttpCall) (w : Writer) → Keeps view (frameworks_handler env enc api call w)
  unfolding frameworks_handler
  frameworks_handler-Keeps call w =
      attempt-Keeps view (listed_frameworks-Keeps call.completed) (λ fws. lift-Keeps view _)
        (λ e. lift-Keeps view _)

  shutdown_framework-Keeps :
      (call : HttpCall) (w : Writer) → Keeps view (shutdown_framework env enc api call w)
  unfolding shutdown_framework
  shutdown_framework-Keeps call w =
      attempt-Keeps view (shutdown-Keeps view env h.sends api.mesos call.id)
        (λ _. lift-Keeps view _) (λ e. lift-Keeps view _)

  -- No handler of a route changes anything that the calls of the environment, apart from the writes
  -- to Consul, leave alone: the API installs and removes packages without writing to Consul.
  pub routes-Keeps :
      (agent now : String)
      → All
          (λ (r : String × String × Handler W).
            (call : HttpCall) (w : Writer) → Keeps view (r.2 call w))
          (routes env enc api agent now)
  unfolding routes deprecate
  routes-Keeps agent now = (
    λ call w. lift-Keeps view _,
    (
      λ call w. packages-Keeps w,
      (
        describe_package-Keeps,
        (
          λ call w. install_package_handler-Keeps call _,
          (
            λ call w. uninstall_package_handler-Keeps call _,
            (
              frameworks_handler-Keeps,
              (
                shutdown_framework-Keeps,
                (install_package_handler-Keeps, (uninstall_package_handler-Keeps, tt)),
              ),
            ),
          ),
        ),
      ),
    ),
  )
