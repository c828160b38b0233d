-- ===== src/Tests/Installs.antt =====
-- A run of `InstallPackage` of install/install.go.
use mathlib.Core.Option.{get_or}
use mantl_api.Prelude.{
  ℕ, String, ◌≡◌, refl, ◌≢◌, ◌↔◌, ◌==◌, Bool, true, false, Option, none, some, List, [], ◌∷◌, ◌⊎◌,
  inl, inr, if◌then◌else◌,
}
use mantl_api.Prelude.Dict.{Map, get, put}
use mantl_api.Prelude.Lists.{In}
use mantl_api.Prelude.Outcome.{ok}
use mantl_api.Http.{Network, HttpRequest}
use mantl_api.Json.{end}
use mantl_api.Marathon.{App}
use mantl_api.Install.Config.Render.{uninstall_json}
use mantl_api.Install.Labels.{
  label, add_mantl_labels, package_name_key, package_version_key, package_index_key,
}
use mantl_api.Install.Config.Transform.{value_transformers}
use mantl_api.Install.Package.{Package, PackageVersion}
use mantl_api.Install.Package.Choice.{Choice}
use mantl_api.Install.Catalog.Index.{get_packages}
use mantl_api.Install.Operations.{install_package}
use mantl_api.Install.Operations.Installed.{install_package-Choice}
use mantl_api.Marathon.{create_app}
use mantl_api.Prelude.Text.{equal_fold, trim_space}
use mantl_api.Install.Config.Render.{marathon_app_json}
use mantl_api.Marathon.{to_app}
use mantl_api.Tests.Catalogs.{fetched, run_of_fetch}
use mantl_api.Install.Config.Render.{load_balancer}
use mantl_api.Install.Labels.{mantl_labels}
use mantl_api.Tests.{codec, mustache, spark, net, client, consul, store}
use mantl_api.Tests.World.{base64, app, env, installer, parsed_request}

app_rendered : marathon_app_json codec mustache fetched ≡ ok ""
unfolding marathon_app_json mantl_api.Install.Config.Render.render_json
    mantl_api.Install.Config.Render.merged_config mantl_api.Install.Config.Render.config_schema
    mantl_api.Tests.parse mantl_api.Install.Config.Schema.decode equal_fold mantl_api.Json.to_string
    mantl_api.Install.Config.Render.options mantl_api.Install.Config.Merge.default_config
    mantl_api.Install.Config.Schema.put mantl_api.Install.Config.Transform.transformed
    mantl_api.Install.Config.Merge.merge_config
app_rendered = refl

abbrev created : App ℕ
created = record app {
  labels = some (
      ("owner", "me")
      ∷ ("MANTL_PACKAGE_NAME", "spark")
      ∷ ("MANTL_PACKAGE_VERSION", "1.5")
      ∷ ("MANTL_PACKAGE_INDEX", "0")
      ∷ ("MANTL_PACKAGE_IS_FRAMEWORK", "false")
      ∷ ("MANTL_PACKAGE_UNINSTALL", "")
      ∷ ("traefik.enable", "false")
      ∷ []);
}

nothing_left : uninstall_json codec mustache fetched ≡ ok ""
unfolding uninstall_json mantl_api.Install.Config.Render.render_json
    mantl_api.Install.Config.Render.merged_config mantl_api.Install.Config.Render.config_schema
    mantl_api.Tests.parse mantl_api.Install.Config.Schema.decode equal_fold mantl_api.Json.to_string
    mantl_api.Install.Config.Render.options mantl_api.Install.Config.Merge.default_config
    mantl_api.Install.Config.Schema.put mantl_api.Install.Config.Transform.transformed
    mantl_api.Install.Config.Merge.merge_config
nothing_left = refl

not_balanced : load_balancer codec mustache fetched ≡ ok "off"
unfolding load_balancer mantl_api.Install.Config.Render.merged_config
    mantl_api.Install.Config.Render.config_schema mantl_api.Tests.parse
    mantl_api.Install.Config.Schema.decode equal_fold mantl_api.Json.to_string
    mantl_api.Install.Config.Render.options mantl_api.Install.Config.Merge.default_config
    mantl_api.Install.Config.Schema.put mantl_api.Install.Config.Transform.transformed
    mantl_api.Install.Config.Merge.merge_config mantl_api.Install.Config.Transform.get_config
    mantl_api.Prelude.Text.split mantl_api.Json.get mantl_api.Json.put
not_balanced = refl

labels_added :
    mantl_labels codec mustache base64 fetched "" (ok "off") (("owner", "me") ∷ [])
    ≡ ok (get_or created.labels [])
unfolding mantl_labels put get
labels_added = refl

creation_labelled : add_mantl_labels codec mustache base64 app fetched ≡ ok created
unfolding add_mantl_labels
creation_labelled = rw (nothing_left, not_balanced, labels_added) refl

creation : create_app env.net env.app_codec installer.marathon created store ≡ (ok "body", store)
unfolding create_app mantl_api.Http.http_post
creation = refl

read_app : to_app env.net env.app_codec installer.marathon "" ≡ ok app
unfolding to_app
read_app = refl

run_of_install : install_package env installer parsed_request store ≡ (ok "body", store)
unfolding install_package
run_of_install = rw (run_of_fetch, app_rendered, read_app, creation_labelled) creation

install_package-Choice_example :
    (ps : List Package) × (pkg : Package) × (v : PackageVersion) × (made_app : App ℕ) × (w1 : Map
      String)
    × (w2 : Map String) × (get_packages consul codec store ≡ (ok ps, w1))
    × In pkg ps
    × (equal_fold (trim_space "spark") pkg.name ≡ true)
    × Choice pkg "" v
    × (label package_name_key made_app ≡ pkg.name)
    × (label package_version_key made_app ≡ v.version)
    × (label package_index_key made_app ≡ v.index)
    × (create_app env.net env.app_codec installer.marathon made_app w2 ≡ (ok "body", store))
install_package-Choice_example =
    install_package-Choice env installer parsed_request "body" store store run_of_install
