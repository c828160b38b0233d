-- ===== src/Install/Config/Merge.antt =====
-- `defaultConfig` and `mergeConfig` of install/package.go.
pub mod Laws
pub mod Defaults
pub mod Faults
pub mod Nested
use mantl_api.Prelude.{String, ◌==◌, Option, none, some, if◌then◌else◌}
use mantl_api.Prelude.Outcome.{Result, ok, ◌>>=◌}
use mantl_api.Json.{Value, null, obj, Fields, end, field, Codec, get, put}
use mantl_api.Install.Config.Definition.{PackageDefinition}
use mantl_api.Install.Config.Schema
use mantl_api.Install.Config.Schema.{
  Group, group, Properties, none_left, property, type_of, properties_of,
}
use mantl_api.Install.Config.Transform.{transformed}

-- the group of a key that the schema may lack: the zero value, with the type ""
abbrev pub group_at : {N : Type 0} → String → Group N → Group N
group_at k g = elim (Schema.find k (properties_of g)) [ none ↦ Schema.empty | some h ↦ h ]

module _ {N : Type 0} (c : Codec N) (d : PackageDefinition N) where
  -- `defaultConfig`, which makes the map that `default_each` fills
  unfoldable mutual
    pub default_config : Group N → Result (Fields N)
    default_config (group _ _ _ ps _ _ _) = default_each ps end

    -- one property of the loop: its default, a map of its properties' defaults, or nothing
    pub default_each : Properties N → Fields N → Result (Fields N)
    default_each none_left defaults = ok defaults
    default_each (property name g ps) defaults = default_at name g defaults >>= default_each ps

    pub default_at : String → Group N → Fields N → Result (Fields N)
    default_at name (group _ typ _ ps _ _ null) defaults =
        let nested = default_each ps end in
        if typ == "object" then (do m ← nested; ok (put name (obj m) defaults)) else ok defaults
    default_at name (group _ typ _ ps _ _ v) defaults = do
      t ← transformed c d v typ
      ok (put name t defaults)

  -- `mergeConfig`: the map `config` is changed in place, so it is also the result.
  unfoldable mutual
    pub merge_config : Fields N → Fields N → Group N → Result (Fields N)
    merge_config config end schema = ok config
    merge_config config (field k v override) schema = do
      w ← merge_value (get k config) v (group_at k schema)
      merge_config (put k w config) override schema

    -- What is stored for a key, from its value in `config`, if any, and in `override`.
    pub merge_value : Option (Value N) → Value N → Group N → Result (Value N)
    merge_value (some (obj old)) (obj new) g = do m ← merge_config old new g; ok (obj m)
    merge_value old v g = transformed c d v (type_of g)
