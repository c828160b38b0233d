-- ===== src/Install/Config/Render.antt =====
-- The methods of `packageDefinition` in install/package.go: the merged configuration, and the
-- documents that are rendered with it. Templates are a third-party package: `mustache` parses a
-- text, or fails, and the parsed template renders with a map.
pub mod Precedence
pub mod Sharing
use mathlib.Core.Option.{get_or}
use mantl_api.Prelude.{String, ◌==◌, Option, none, some, if◌then◌else◌}
use mantl_api.Prelude.Text.{to_lower}
use mantl_api.Prelude.Outcome.{Result, ok, err, panic, ◌>>=◌}
use mantl_api.Json.{Value, null, Fields, end, field, Codec, to_map, as_string}
use mantl_api.Install.Config.Definition.{PackageDefinition}
use mantl_api.Install.Config.Schema
use mantl_api.Install.Config.Schema.{Group}
use mantl_api.Install.Config.Transform.{get_config}
use mantl_api.Install.Config.Merge.{default_config, merge_config}

abbrev pub Mustache : Type 0 → Type 0
Mustache N = String → Result (Fields N → String)

module _ {N : Type 0} (c : Codec N) (mustache : Mustache N) where
  -- `ConfigSchema`
  unfoldable pub config_schema : PackageDefinition N → Result (Group N)
  config_schema d =
      if d.config_json == "" then ok Schema.empty else do v ← c.parse d.config_json; Schema.decode v

  -- `json.Unmarshal` into a map that is nil, and stays so if the document is `null`
  to_map_or_nil : Value N → Result (Option (Fields N))
  to_map_or_nil null = ok none
  to_map_or_nil v = do m ← to_map v; ok (some m)

  -- `mergeConfig` into a map that may be nil: storing into a nil map panics.
  unfoldable pub merge_or_panic :
      PackageDefinition N → Option (Fields N) → Fields N → Group N → Result (Option (Fields N))
  merge_or_panic d (some m) override schema = do n ← merge_config c d m override schema; ok (some n)
  merge_or_panic d none end schema = ok none
  merge_or_panic d none (field k v m) schema = panic

  -- the options template, rendered with the API's configuration and decoded
  unfoldable pub options_template : PackageDefinition N → Result (Option (Fields N))
  unfolding to_map_or_nil
  options_template d = do
    tmpl ← mustache d.options_json
    v ← c.parse (tmpl d.api_config)
    to_map_or_nil v

  -- `Options`; `none` stands for a nil map.
  unfoldable pub options : PackageDefinition N → Result (Option (Fields N))
  options d = do
    schema ← config_schema d
    if d.options_json == "" then ok none else do
      template ← options_template d
      with_user ← merge_or_panic d template d.user_config schema
      merge_or_panic d with_user d.api_config schema

  -- `MergedConfig`
  unfoldable pub merged_config : PackageDefinition N → Result (Fields N)
  merged_config d = do
    schema ← config_schema d
    opts ← options d
    config ← default_config c d schema
    merge_config c d config (get_or opts end) schema

  -- `renderJsonMustacheTemplate`
  unfoldable pub render_json : PackageDefinition N → String → Result String
  render_json d json_blob = do config ← merged_config d; tmpl ← mustache json_blob; ok (tmpl config)

  -- `MarathonAppJson`
  unfoldable pub marathon_app_json : PackageDefinition N → Result String
  marathon_app_json d = render_json d d.marathon_json

  -- `UninstallJson`
  unfoldable pub uninstall_json : PackageDefinition N → Result String
  uninstall_json d = render_json d d.uninstall_json

  -- the value of "mantl.load-balancer", in lower case, if it is a text
  lb_of : Option String → String
  lb_of none = "off"
  lb_of (some v) = to_lower v

  -- `LoadBalancer`
  unfoldable pub load_balancer : PackageDefinition N → Result String
  unfolding lb_of
  load_balancer d = do
    config ← merged_config d
    ok (lb_of (as_string (get_config config "mantl.load-balancer")))
