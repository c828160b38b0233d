-- ===== src/Install/Monitor.antt =====
-- install/consul_monitor.go: the requests to install that are left in Consul.
pub mod Laws
pub mod Served
use mantl_api.Prelude.{String, ◌==◌, List, [], ◌∷◌, if◌then◌else◌}
use mantl_api.Prelude.Text.{trim_prefix}
use mantl_api.Prelude.Outcome.{Result, ok, err, panic}
use mantl_api.Prelude.Exec.{Exec, pure, lift, ◌>>=◌, ◌>>◌, attempt}
use mantl_api.Install.Package.Request.{PackageRequest, new_package_request}
use mantl_api.Install.Repository.{apps_root}
use mantl_api.Install.Operations.{Env, Install, install_package}

module _ {W N : Type 0} (env : Env W N) where
  -- the body of `installPackageFromKVPair`: errors are logged
  unfoldable pub install_value : Install N → String → Exec W (Unit {0})
  install_value i value =
      attempt (lift (new_package_request env.codec value))
        (λ req. attempt (install_package env i req) (λ _. pure tt) (λ e. pure tt)) (λ e. pure tt)

  after_delete : Result (Unit {0}) → Result (Unit {0}) → Result (Unit {0})
  after_delete panic deleted = panic
  after_delete r panic = panic
  after_delete r deleted = ok tt

  -- `installPackageFromKVPair`: the deferred deletion runs whatever the body does, a panic included.
  unfoldable pub install_package_from_kv_pair : Install N → String × String → Exec W (Unit {0})
  unfolding after_delete
  install_package_from_kv_pair i (key, value) w =
      let (r, w') = install_value i value w in
      let (d, w'') = env.consul.delete key w' in (after_delete r d, w'')

  -- the loop over the pairs, which skips the key of the directory itself
  unfoldable pub install_pairs : Install N → List (String × String) → Exec W (Unit {0})
  install_pairs i [] = pure tt
  install_pairs i ((key, value) ∷ more) =
      (if trim_prefix key apps_root == ""
        then pure tt
        else install_package_from_kv_pair i (key, value))
      >> install_pairs i more

  -- one tick of `Watch`
  unfoldable pub watch_tick : Install N → Exec W (Unit {0})
  watch_tick i = attempt (env.consul.list apps_root) (install_pairs i) (λ e. pure tt)
