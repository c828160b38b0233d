-- ===== src/Install/Labels.antt =====
-- `addMantlLabels` of install/install.go, and the labels it sets.
pub mod Laws
use mathlib.Core.Option.{get_or}
use mantl_api.Prelude.{String, ◌==◌, Bool, true, false, Option, none, some, [], if◌then◌else◌}
use mantl_api.Prelude.Dict.{Map, get, put}
use mantl_api.Prelude.Outcome.{Result, ok, err, panic, ◌>>=◌}
use mantl_api.Json.{Codec}
use mantl_api.Marathon.{App}
use mantl_api.Install.Config.Definition.{PackageDefinition}
use mantl_api.Install.Config.Render.{Mustache, uninstall_json, load_balancer}

abbrev pub package_name_key : String
package_name_key = "MANTL_PACKAGE_NAME"

abbrev pub package_version_key : String
package_version_key = "MANTL_PACKAGE_VERSION"

abbrev pub package_index_key : String
package_index_key = "MANTL_PACKAGE_INDEX"

abbrev pub package_is_framework_key : String
package_is_framework_key = "MANTL_PACKAGE_IS_FRAMEWORK"

abbrev pub package_framework_name_key : String
package_framework_name_key = "MANTL_PACKAGE_FRAMEWORK_NAME"

abbrev pub package_uninstall_key : String
package_uninstall_key = "MANTL_PACKAGE_UNINSTALL"

abbrev pub dcos_package_framework_name_key : String
dcos_package_framework_name_key = "DCOS_PACKAGE_FRAMEWORK_NAME"

abbrev pub traefik_enable_key : String
traefik_enable_key = "traefik.enable"

-- `base64.StdEncoding`
pub record Base64 : Type 0 where
  pub encode : String → String
  pub decode : String → Result String

-- `strconv.FormatBool`
unfoldable pub format_bool : Bool → String
format_bool true = "true"
format_bool false = "false"

-- `app.Labels[key]`, which is empty for a key that is not there
unfoldable pub label : {N : Type 0} → String → App N → String
label key app = get_or (get key (get_or app.labels [])) ""

put_name : String → Map String → Map String
put_name name m = if name == "" then m else put package_framework_name_key name m

copy_dcos : Option String → Map String → Map String
copy_dcos none m = m
copy_dcos (some name) m = put package_framework_name_key name m

put_lb : Result String → Map String → Result (Map String)
put_lb (ok lb) m = ok (put traefik_enable_key (format_bool (lb == "external")) m)
put_lb (err e) m = ok m
put_lb panic m = panic

module _ {N : Type 0} (c : Codec N) (mustache : Mustache N) (b : Base64) where
  -- the labels, from those of the application, the rendered `uninstall.json` and the load balancer
  unfoldable pub mantl_labels :
      PackageDefinition N → String → Result String → Map String → Result (Map String)
  unfolding put_name copy_dcos put_lb format_bool
  mantl_labels d uninstall lb m =
      let m1 = put package_name_key d.name m in
      let m2 = put package_version_key d.version m1 in
      let m3 = put package_index_key d.release m2 in
      let m4 = put package_is_framework_key (format_bool d.framework) m3 in
      let m5 = put package_uninstall_key (b.encode uninstall) m4 in
      let m6 = put_name d.framework_name m5 in
      put_lb lb (copy_dcos (get dcos_package_framework_name_key m6) m6)

  -- `addMantlLabels`
  unfoldable pub add_mantl_labels : App N → PackageDefinition N → Result (App N)
  add_mantl_labels app d = do
    uninstall ← uninstall_json c mustache d
    labels ← mantl_labels d uninstall (load_balancer c mustache d) (get_or app.labels [])
    ok (record app { labels = some labels })
