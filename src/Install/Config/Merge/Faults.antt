-- ===== src/Install/Config/Merge/Faults.antt =====
-- When the configuration of a package cannot be merged: it never fails with an error, and it panics
-- on a value that the transformers of the type declared for its key do not take.
use mantl_api.Prelude.{String, ◌≡◌, refl, ◌≢◌, false, Option, none, some, inl, inr}
use mantl_api.Prelude.Outcome.{Result, ok, err, panic, >>=-eq-err}
use mantl_api.Json.{Value, obj, Items, Fields, end, field, Codec, get, put, Unique, as_map}
use mantl_api.Install.Config.Definition.{PackageDefinition}
use mantl_api.Install.Config.Schema.{Group, type_of}
use mantl_api.Install.Config.Transform.{transformed, value_transformers}
use mantl_api.Install.Config.Transform.Faults.{accepts, transformed-panic, transformed-ne-err}
use mantl_api.Install.Config.Merge.{group_at, merge_config, merge_value}
use mantl_api.Install.Config.Merge.Laws.{merged_at, get-merge_config}

module _ {N : Type 0} (c : Codec N) (d : PackageDefinition N) where
  mutual
    unfolding merge_config

    merged-ne-err :
        (override config : Fields N) (schema : Group N) (e : String)
        → merge_config c d config override schema ≢ err e
    merged-ne-err end config schema e h = cc
    merged-ne-err (field k v override) config schema e h =
        elim (>>=-eq-err (merge_value c d (get k config) v (group_at k schema)) _ h) [
          | inl p ↦ merge_value-ne-err (get k config) v (group_at k schema) e p
          | inr (w, _, p) ↦ merged-ne-err override (put k w config) schema e p
        ]

    merge_value-ne-err :
        (old : Option (Value N)) (v : Value N) (g : Group N) (e : String)
        → merge_value c d old v g ≢ err e
    merge_value-ne-err (some (obj old)) (obj new) g e h =
        elim (>>=-eq-err (merge_config c d old new g) _ h) [
          | inl p ↦ merged-ne-err new old g e p
          | inr (w, _, p) ↦ cc
        ]
    merge_value-ne-err old v g e h = transformed-ne-err c d v (type_of g) e h

  -- A merge never fails with an error: it gives a map, or panics.
  merge_config-ne-err :
      (override config : Fields N) (schema : Group N) (e : String)
      → merge_config c d config override schema ≢ err e
  merge_config-ne-err override config schema e h = merged-ne-err override config schema e h

  -- What is no map is stored as its transformers leave it.
  merge_value-plain :
      (old : Option (Value N)) (v : Value N) (g : Group N)
      → as_map (some v) ≡ none
      → merge_value c d old v g ≡ transformed c d v (type_of g)
  unfolding merge_config
  merge_value-plain (some (obj old)) (obj new) g h = cc
  merge_value-plain old v g h = refl

  refused :
      (config override : Fields N) (schema : Group N) (k : String) (v : Value N)
      (r : Result (Fields N))
      → Unique override
      → get k override ≡ some v
      → merge_value c d (get k config) v (group_at k schema) ≡ panic
      → merge_config c d config override schema ≡ r
      → r ≡ panic
  unfolding merged_at
  refused config override schema k v (ok m) u here stop h =
      let at_k = get-merge_config c d config override schema k {m = m} u h in
      cc (rw (here, merged_at, stop) at at_k)
  refused config override schema k v (err e) u here stop h =
      absurd (merge_config-ne-err override config schema e h)
  refused config override schema k v panic u here stop h = refl

  -- Under the program's transformers, an encoder that does not panic, and an override that binds no
  -- key twice: if the override gives a key a value that is no map, no array and no text, and the type
  -- that the schema declares for the key is "string", or is "integer" or "number" while the value is
  -- no number, the merge panics.
  pub merge_config-mistyped :
      (config override : Fields N) (schema : Group N) (k : String) (v : Value N)
      → d.value_transformers ≡ value_transformers
      → ((vs : Items N) → c.marshal vs ≢ panic)
      → Unique override
      → get k override ≡ some v
      → as_map (some v) ≡ none
      → accepts (type_of (group_at k schema)) v ≡ false
      → merge_config c d config override schema ≡ panic
  merge_config-mistyped config override schema k v standard total u here plain mistyped =
      refused config override schema k v _ u here
        (rw (merge_value-plain _ v _ plain)
          ((transformed-panic c d standard total v (type_of (group_at k schema))).1 mistyped))
        refl
