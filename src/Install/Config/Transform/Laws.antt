-- ===== src/Install/Config/Transform/Laws.antt =====
-- What `getConfigVal` finds, and what the transformers make of a value.
use mantl_api.Prelude.{
  String, ◌≡◌, Option, none, some, List, [], ◌∷◌, arith, inl, inr, Option-cases,
}
use mantl_api.Json.{Value, obj, Fields, get, as_map}
use mantl_api.Install.Config.Transform.{get_config_val}

module _ {N : Type 0} where
  -- The value under a path, every key of which is there.
  unfoldable pub at_path : Fields N → List String → Option (Value N)
  at_path m [] = some (obj m)
  at_path m (key ∷ []) = get key m
  at_path m (key ∷ k ∷ keys) = elim (get key m) [ some (obj n) ↦ at_path n (k ∷ keys) | _ ↦ none ]

  -- A value that is no map and stands under the path is what `getConfigVal` finds.
  pub get_config_val-at_path :
      (m : Fields N) (keys : List String) (v : Value N)
      → at_path m keys ≡ some v
      → as_map (some v) ≡ none
      → get_config_val m keys ≡ some v
  unfolding get_config_val at_path
  get_config_val-at_path m [] v h k = ground arith
  get_config_val-at_path m (key ∷ []) v h k = ground arith
  get_config_val-at_path m (key ∷ j ∷ keys) v h k = elim (Option-cases (get key m)) [
    | inl e ↦ ground (arith, e)
    | inr (obj n, e) ↦
        rw (e, get_config_val) (get_config_val-at_path n (j ∷ keys) v (rw (e, at_path) at h) k)
    | inr (w, e) ↦ ground (arith, e)
  ]
