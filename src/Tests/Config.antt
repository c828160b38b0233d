-- ===== src/Tests/Config.antt =====
-- Runs of install/package.go and install/transformers.go on the configuration of one package.
use mantl_api.Prelude.{
  ℕ, String, ◌≡◌, refl, ◌↔◌, true, false, Option, none, some, List, [], ◌∷◌, eq_iff, ◌==◌, inl, inr,
  Bool-cases,
}
use mantl_api.Prelude.Outcome.{Result, ok, panic}
use mantl_api.Json.{Value, null, bool, num, str, arr, obj, Items, nil, Fields, end, field, get}
use mantl_api.Install.Config.Schema
use mantl_api.Install.Config.Transform.{transformed, value_transformers}
use mantl_api.Install.Config.Transform.Faults.{accepts, transformed-panic}
use mantl_api.Install.Config.Merge.{default_config, merge_config, group_at}
use mantl_api.Install.Config.Merge.Nested.{MergedAt, merge_config-MergedAt}
use mantl_api.Install.Config.Merge.Defaults.{defaulted_at, get-default_config}
use mantl_api.Install.Config.Merge.Faults.{merge_config-mistyped}
use mantl_api.Install.Config.Render.Sharing.{shared}
use mantl_api.Tests.{codec, spark, schema}

abbrev two_keys : Fields ℕ
two_keys = field "cpus" (num 4) (field "name" (str "a") end)

abbrev two_keys_again : Fields ℕ
two_keys_again = field "name" (str "a") (field "cpus" (num 4) end)

first_merge :
    merge_config codec spark end two_keys schema
    ≡ ok (field "cpus" (str "4.00") (field "name" (str "a") end))
unfolding merge_config get transformed mantl_api.Prelude.Dict.get Schema.find mantl_api.Json.put
first_merge = refl

second_merge :
    merge_config codec spark end two_keys_again schema
    ≡ ok (field "name" (str "a") (field "cpus" (str "4.00") end))
unfolding merge_config get transformed mantl_api.Prelude.Dict.get Schema.find mantl_api.Json.put
second_merge = refl

-- a map over a map
abbrev below : Fields ℕ
below = field "mantl" (obj (field "zone" (str "a") end)) end

abbrev above : Fields ℕ
above = field "mantl" (obj (field "port" (str "80") end)) end

abbrev over : Fields ℕ
over = field "mantl" (obj (field "zone" (str "a") (field "port" (str "80") end))) end

nested_merge : merge_config codec spark below above schema ≡ ok over
unfolding merge_config get transformed mantl_api.Prelude.Dict.get Schema.find mantl_api.Json.put
nested_merge = refl

merge_config-MergedAt_example :
    MergedAt codec spark
      (get "mantl" below)
      (get "mantl" above)
      (group_at "mantl" schema)
      (get "mantl" over)
unfolding get
merge_config-MergedAt_example =
    merge_config-MergedAt codec spark below above schema over (refl, ((refl, (tt, tt)), tt))
      nested_merge "mantl"

same_entries : (j : String) → get j two_keys ≡ get j two_keys_again
unfolding get
same_entries j = elim (Bool-cases ("cpus" == j)) [
  | inl e ↦ rw (← (eq_iff "cpus" j).0 e) refl
  | inr e ↦ rw e refl
]

defaults : default_config codec spark schema ≡ ok (field "cpus" (str "4.00") end)
unfolding default_config transformed mantl_api.Prelude.Dict.get mantl_api.Json.put
defaults = refl

get-default_config_example :
    defaulted_at codec spark none (Schema.find "cpus" (Schema.properties_of schema))
    ≡ ok (some (str "4.00"))
unfolding get Schema.find
get-default_config_example =
    get-default_config codec spark schema "cpus" {m = field "cpus" (str "4.00") end} (refl, tt)
      defaults

marshals : (vs : Items ℕ) → Path (Result String) (ok "[]") panic → ⊥
marshals vs h = cc

transformed-panic_example :
    (transformed codec spark (bool true) "number" ≡ panic)
    ↔ (accepts {N = ℕ} "number" (bool true) ≡ false)
transformed-panic_example = transformed-panic codec spark refl marshals (bool true) "number"

merge_config-mistyped_example :
    merge_config codec spark end (field "cpus" (bool true) end) schema ≡ panic
unfolding get accepts Schema.find
merge_config-mistyped_example =
    merge_config-mistyped codec spark end (field "cpus" (bool true) end) schema "cpus" (bool true)
      refl marshals (refl, tt) refl refl refl

abbrev nested : Fields ℕ
nested = field "mantl" (obj (field "zookeeper" (obj (field "hosts" (str "zk1:2181") end)) end)) end

-- A map of the user's that the options lacked has the API's settings after the merges.
taken_in :
    shared {N = ℕ} below end over
    ≡ field "mantl" (obj (field "zone" (str "a") (field "port" (str "80") end))) end
unfolding shared get
taken_in = refl

-- One that was merged into a map of the template keeps what it had.
left_alone : shared {N = ℕ} below above over ≡ below
unfolding shared get
left_alone = refl
