-- ===== src/Tests/Requests.antt =====
-- Runs of install/install.go on an application of one package.
use mantl_api.Prelude.{
  ℕ, String, ◌≡◌, refl, ◌≢◌, ◌↔◌, ◌==◌, Bool, true, false, Option, none, some, List, [], ◌∷◌, ◌⊎◌,
  inl, inr, if◌then◌else◌,
}
use mantl_api.Prelude.Dict.{Map, get, put}
use mantl_api.Prelude.Lists.{In}
use mantl_api.Prelude.Exec.Attempts.{Attempts}
use mantl_api.Prelude.Outcome.{ok, err}
use mantl_api.Http.{Network, HttpRequest}
use mantl_api.Json.{end}
use mantl_api.Marathon.{App, apps, destroy_app}
use mantl_api.Mesos.{Mesos, State, StateDecoder, shutdown, shutdown_framework_by_name}
use mantl_api.Install.Config.Render.{uninstall_json}
use mantl_api.Install.Labels.{
  Base64, label, add_mantl_labels, package_name_key, package_version_key, package_index_key,
  package_uninstall_key, dcos_package_framework_name_key,
}
use mantl_api.Install.Operations.{find_installed, framework_name, post_uninstall, uninstall_package}
use mantl_api.Install.Operations.Filters.{Wanted, find_installed-In}
use mantl_api.Install.Operations.Removal.{
  NoPanic, delete_path, always_paths, uninstall_package-eq-err, post_uninstall-add_mantl_labels,
}
use mantl_api.Install.Config.Transform.{value_transformers}
use mantl_api.Prelude.Text.{equal_fold, trim_space}
use mantl_api.Install.Config.Render.{marathon_app_json}
use mantl_api.Install.Config.Render.{load_balancer}
use mantl_api.Install.Labels.{mantl_labels}
use mantl_api.Tests.{codec, mustache, spark, net, client, consul, store}
use mantl_api.Tests.World.{base64, app, labelled, nodes, env, installer, request}

made : add_mantl_labels codec mustache base64 app spark ≡ ok labelled
unfolding add_mantl_labels uninstall_json mantl_api.Install.Config.Render.render_json
    mantl_api.Install.Config.Render.merged_config mantl_api.Install.Config.Render.config_schema
    mantl_api.Tests.parse mantl_api.Install.Config.Schema.decode mantl_api.Prelude.Text.equal_fold
    mantl_api.Json.to_string mantl_api.Install.Config.Render.options
    mantl_api.Install.Config.Render.options_template mantl_api.Json.to_map
    mantl_api.Install.Config.Render.merge_or_panic mantl_api.Install.Config.Merge.merge_config
    mantl_api.Json.get mantl_api.Install.Config.Transform.transformed
    mantl_api.Install.Config.Schema.find mantl_api.Install.Config.Merge.default_config
    mantl_api.Install.Config.Render.load_balancer mantl_api.Install.Config.Schema.put
    mantl_api.Install.Config.Transform.apply mantl_api.Install.Config.Transform.get_config
    mantl_api.Install.Config.Transform.get_config_val mantl_api.Install.Labels.format_bool
    mantl_api.Install.Labels.mantl_labels mantl_api.Json.put mantl_api.Json.to_bool
    mantl_api.Json.to_strings get put mantl_api.Prelude.Int.show mantl_api.Prelude.Int.show_nat
    mantl_api.Prelude.Text.contains mantl_api.Prelude.Text.has_prefix mantl_api.Prelude.Text.replace
    mantl_api.Prelude.Text.split mantl_api.Prelude.Text.strip_prefix mantl_api.Prelude.Text.to_lower
made = refl

listed : apps env.net env.app_codec installer.marathon store ≡ (ok (labelled ∷ app ∷ []), store)
unfolding apps mantl_api.Http.http_get
listed = refl

find_installed-In_example :
    (found : List (App ℕ)) × (find_installed env installer request store ≡ (ok found, store))
    × ((a : App ℕ) → In a found ↔ (In a (labelled ∷ app ∷ []) × Wanted env request a))
find_installed-In_example =
    find_installed-In env installer request store store (labelled ∷ app ∷ []) listed

no_state : uninstall_package env installer (some labelled) store ≡ (err "no state", store)
unfolding uninstall_package destroy_app mantl_api.Http.http_delete framework_name label get
    shutdown_framework_by_name mantl_api.Mesos.find_framework mantl_api.Mesos.find_frameworks
    mantl_api.Mesos.state mantl_api.Http.http_get
no_state = refl

uninstall_package-eq-err_example :
    (destroy_app env.net env.app_codec installer.marathon "/spark" store ≡ (err "no state", store))
    ⊎ ((text : String) × (w1 : Map String) × (m : Mesos) × (destroy_app env.net env.app_codec
            installer.marathon "/spark" store
          ≡ (ok text, w1))
        × ((framework_name env labelled == "") ≡ false)
        × (installer.mesos ≡ some m)
        × (shutdown_framework_by_name env.net env.state_decoder m (framework_name env labelled) w1
            ≡ (err "no state", store)))
uninstall_package-eq-err_example =
    uninstall_package-eq-err env installer labelled "no state" store store no_state

rendered : uninstall_json codec mustache spark ≡ ok "uninstall"
unfolding uninstall_json mantl_api.Install.Config.Render.render_json
    mantl_api.Install.Config.Render.merged_config mantl_api.Install.Config.Render.config_schema
    mantl_api.Tests.parse mantl_api.Install.Config.Schema.decode mantl_api.Prelude.Text.equal_fold
    mantl_api.Json.to_string mantl_api.Install.Config.Render.options
    mantl_api.Install.Config.Render.options_template mantl_api.Json.to_map
    mantl_api.Install.Config.Render.merge_or_panic mantl_api.Install.Config.Merge.merge_config
    mantl_api.Json.get mantl_api.Install.Config.Transform.transformed
    mantl_api.Install.Config.Schema.find mantl_api.Install.Config.Schema.put
    mantl_api.Install.Config.Merge.default_config mantl_api.Install.Config.Transform.apply
    mantl_api.Install.Config.Transform.get_config_val mantl_api.Json.put mantl_api.Json.to_bool
    mantl_api.Json.to_strings get mantl_api.Prelude.Int.show mantl_api.Prelude.Int.show_nat
    mantl_api.Prelude.Text.contains mantl_api.Prelude.Text.has_prefix mantl_api.Prelude.Text.replace
    mantl_api.Prelude.Text.strip_prefix
rendered = refl

no_panic : NoPanic env installer
unfolding mantl_api.Zookeeper.delete mantl_api.Zookeeper.delete_tree mantl_api.Zookeeper.znode_tree
    mantl_api.Zookeeper.walk mantl_api.Zookeeper.delete_each mantl_api.Prelude.Sort.sort
no_panic path w h = cc h

post_uninstall-add_mantl_labels_example :
    (w' : Map String) × (post_uninstall env installer labelled store ≡ (ok tt, w'))
    × Attempts (delete_path env installer) (always_paths env installer nodes) store w'
post_uninstall-add_mantl_labels_example =
    post_uninstall-add_mantl_labels env installer app labelled spark "uninstall" nodes store made
      rendered refl refl refl no_panic
