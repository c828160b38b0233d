-- ===== src/Install/Config/Merge/Nested.antt =====
-- What a merge holds under each key, at every depth.
use mantl_api.Prelude.{
  String, ◌≡◌, refl, ◌==◌, eq_iff, Option, none, some, inl, inr, ◌⊎◌, Bool-cases,
}
use mathlib.Core.Path.{subst}
use mantl_api.Prelude.Outcome.{ok, >>=-eq-ok, ok-injective}
use mantl_api.Json.{Value, obj, Fields, end, field, Codec, get, put, as_map}
use mantl_api.Json.Laws.{get-put}
use mantl_api.Install.Config.Definition.{PackageDefinition}
use mantl_api.Install.Config.Schema.{Group, type_of}
use mantl_api.Install.Config.Transform.{transformed}
use mantl_api.Install.Config.Merge.{group_at, merge_config, merge_value}

-- No map binds a key twice, neither this one nor those below it.
abbrev mutual
  pub AllUnique : {N : Type 0} → Fields N → Type 0
  AllUnique end = Unit
  AllUnique (field k v m) = (get k m ≡ none) × (UniqueBelow v × AllUnique m)

  pub UniqueBelow : {N : Type 0} → Value N → Type 0
  UniqueBelow (obj m) = AllUnique m
  UniqueBelow v = Unit

module _ {N : Type 0} (c : Codec N) (d : PackageDefinition N) where
  mutual
    -- the value of a key after a merge, from its value before and in the override
    pub data MergedAt
        : Option (Value N) → Option (Value N) → Group N → Option (Value N) → Type 0 where
      kept : {old : Option (Value N)} {g : Group N} → MergedAt old none g old
      merged :
          {old : Option (Value N)} {v w : Value N} {g : Group N}
          → Merged old v g w
          → MergedAt old (some v) g (some w)

    -- A map over a map has under each key what the two have there, merged; any other value is what
    -- its transformers make of it.
    pub data Merged : Option (Value N) → Value N → Group N → Value N → Type 0 where
      maps :
          {old new m : Fields N} {g : Group N}
          → ((k : String) → MergedAt (get k old) (get k new) (group_at k g) (get k m))
          → Merged (some (obj old)) (obj new) g (obj m)
      replaced :
          {old : Option (Value N)} {v w : Value N} {g : Group N}
          → ((as_map old ≡ none) ⊎ (as_map (some v) ≡ none))
          → transformed c d v (type_of g) ≡ ok w
          → Merged old v g w

  kept-old : (old o' o : Option (Value N)) (g : Group N) → MergedAt old o' g o → o' ≡ none → old ≡ o
  kept-old old o' o g kept e = refl
  kept-old old o' o g (merged f) e = cc

  same_key :
      (config override m : Fields N) (schema : Group N) (j k : String) (v w : Value N)
      → j ≡ k
      → get j override ≡ none
      → Merged (get j config) v (group_at j schema) w
      → MergedAt (get k (put j w config)) (get k override) (group_at k schema) (get k m)
      → MergedAt (get k config) (some v) (group_at k schema) (get k m)
  same_key config override m schema j k v w p fresh here rest =
      let there : some w ≡ get k m =
        rw (get-put, (eq_iff j k).1 p) at
          (kept-old (get k (put j w config)) (get k override) (get k m) (group_at k schema) rest
            (rw p at fresh)) in
      subst (λ o. MergedAt (get k config) (some v) (group_at k schema) o) there
        (merged (rw p at here))

  mutual
    unfolding merge_config get

    merge_value-Merged :
        (old : Option (Value N)) (v : Value N) (g : Group N) (w : Value N)
        → UniqueBelow v
        → merge_value c d old v g ≡ ok w
        → Merged old v g w
    merge_value-Merged (some (obj old)) (obj new) g w u h =
        let (m, e, q) = >>=-eq-ok (merge_config c d old new g) _ h in
        subst (λ x. Merged (some (obj old)) (obj new) g x) (ok-injective q)
          (maps (λ k. all_MergedAt old new g m u e k))
    merge_value-Merged (some (obj old)) v g w u h = replaced (inr refl) h
    merge_value-Merged old v g w u h = replaced (inl refl) h

    all_MergedAt :
        (config override : Fields N) (schema : Group N) (m : Fields N)
        → AllUnique override
        → merge_config c d config override schema ≡ ok m
        → (k : String) → MergedAt (get k config) (get k override) (group_at k schema) (get k m)
    all_MergedAt config end schema m u h k =
        subst (λ x. MergedAt (get k config) none (group_at k schema) (get k x)) (ok-injective h)
          kept
    all_MergedAt config (field j v override) schema m (fresh, (below, u)) h k =
        let (w, e, h') = >>=-eq-ok (merge_value c d (get j config) v (group_at j schema)) _ h in
        let first = merge_value-Merged (get j config) v (group_at j schema) w below e in
        let rest = all_MergedAt (put j w config) override schema m u h' k in
        elim (Bool-cases (j == k)) [
          | inr p ↦ rw p (rw (get-put, p) at rest)
          | inl p ↦
              rw p (same_key config override m schema j k v w ((eq_iff j k).0 p) fresh first rest)
        ]

  -- If no map of the override binds a key twice, at any depth, then after a merge that does not
  -- panic each key holds the old value if the override lacks the key; a map with the values of
  -- both, merged key by key in the same way under the schema of the key, if both are maps; and else
  -- the override's value as the transformers of the key's type make it.
  pub merge_config-MergedAt :
      (config override : Fields N) (schema : Group N) (m : Fields N)
      → AllUnique override
      → merge_config c d config override schema ≡ ok m
      → (k : String) → MergedAt (get k config) (get k override) (group_at k schema) (get k m)
  merge_config-MergedAt config override schema m u h k = all_MergedAt config override schema m u h k
