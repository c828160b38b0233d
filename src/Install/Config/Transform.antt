-- ===== src/Install/Config/Transform.antt =====
-- install/transformers.go, and `getConfigVal`, `getConfig` and `transformedConfigValue` of
-- install/package.go.
pub mod Laws
pub mod Faults
use mathlib.Core.Option.{get_or}
use mantl_api.Prelude.{String, Option, none, some, List, [], ◌∷◌, if◌then◌else◌}
use mantl_api.Prelude.Dict
use mantl_api.Prelude.Dict.{Map}
use mantl_api.Prelude.Int.{show}
use mantl_api.Prelude.Text.{contains, replace, split}
use mantl_api.Prelude.Outcome.{Result, ok, err, panic, ◌>>=◌}
use mantl_api.Json.{Value, num, str, arr, obj, Fields, Codec, get, as_string}
use mantl_api.Install.Config.Definition.{
  PackageDefinition, Transformer, zookeeper_hosts, int_transformer, number_transformer,
}

abbrev pub zk_val : String
zk_val = "zookeeper.service.consul:2181"

-- the text of `zookeeperHosts`, for the hosts of the API's configuration if they are a text
with_hosts : Option String → String → String
with_hosts none s = s
with_hosts (some hosts) s = if contains s zk_val then replace s zk_val hosts else s

module _ {N : Type 0} where
  -- `getConfigVal`: a map is entered, any other value is returned, and a key that is missing is
  -- passed over. `none` stands for `nil`.
  unfoldable pub get_config_val : Fields N → List String → Option (Value N)
  get_config_val nested [] = none
  get_config_val nested (key ∷ keys) = elim (get key nested) [
    | none ↦ get_config_val nested keys
    | some (obj m) ↦ get_config_val m keys
    | some v ↦ some v
  ]

  -- `getConfig`
  unfoldable pub get_config : Fields N → String → Option (Value N)
  unfolding get_config_val
  get_config m node = get_config_val m (split node b'.')

  -- `zookeeperHosts`: the type assertion panics on a value that is no text.
  zookeeper_hosts_of : Fields N → Value N → Result String
  unfolding with_hosts get_config_val
  zookeeper_hosts_of api_config (str s) =
      ok (
        with_hosts (as_string (get_config_val api_config ("mantl" ∷ "zookeeper" ∷ "hosts" ∷ []))) s)
  zookeeper_hosts_of api_config _ = panic

  module _ (c : Codec N) where
    -- `intTransformer`
    int_of : Value N → Result String
    int_of (str s) = ok s
    int_of (num n) = ok (show (c.truncate n))
    int_of _ = panic

    -- `numberTransformer`
    number_of : Value N → Result String
    number_of (str s) = ok s
    number_of (num n) = ok (c.two_places n)
    number_of _ = panic

    unfoldable pub apply : Transformer → PackageDefinition N → Value N → Result String
    unfolding zookeeper_hosts_of int_of number_of
    apply zookeeper_hosts d v = zookeeper_hosts_of d.api_config v
    apply int_transformer d v = int_of v
    apply number_transformer d v = number_of v

    -- `for _, fn := range d.valueTransformers[typ] { val = fn(val, d) }`
    apply_all : List Transformer → PackageDefinition N → Value N → Result (Value N)
    apply_all [] d v = ok v
    apply_all (t ∷ ts) d v = do s ← apply t d v; apply_all ts d (str s)

    -- `transformedConfigValue`
    unfoldable pub transformed : PackageDefinition N → Value N → String → Result (Value N)
    unfolding apply_all apply
    transformed d (arr slice) typ = elim (c.marshal slice) [
      | ok blob ↦ ok (str blob)
      | err e ↦ ok (arr slice)
      | panic ↦ panic
    ]
    transformed d v typ = apply_all (get_or (Dict.get typ d.value_transformers) []) d v

-- `valueTransformers`
abbrev pub value_transformers : Map (List Transformer)
value_transformers =
    ("string", zookeeper_hosts ∷ [])
    ∷ ("integer", int_transformer ∷ [])
    ∷ ("number", number_transformer ∷ [])
    ∷ []
