-- ===== src/Install/Config/Definition.antt =====
-- `packageDefinition` of install/package.go.
use mantl_api.Prelude.{String, Bool, not, ◌&&◌, ◌==◌, List}
use mantl_api.Prelude.Dict.{Map}
use mantl_api.Json.{Fields}

-- The functions of install/transformers.go that `valueTransformers` lists.
pub data Transformer : Type 0 where
  zookeeper_hosts int_transformer number_transformer : Transformer

pub record PackageDefinition (N : Type 0) : Type 0 where
  pub command_json : String
  pub config_json : String
  pub marathon_json : String
  pub package_json : String
  pub options_json : String
  pub uninstall_json : String
  pub api_config : Fields N
  pub user_config : Fields N
  pub name : String
  pub version : String
  pub release : String
  pub framework : Bool
  pub framework_name : String
  pub value_transformers : Map (List Transformer)

-- `IsValid`
unfoldable pub is_valid : {N : Type 0} → PackageDefinition N → Bool
is_valid d = not (d.config_json == "") && not (d.marathon_json == "") && not (d.package_json == "")
