-- ===== src/Install/Config/Merge/Laws.antt =====
-- What a merge and the defaults hold under each key, whatever order Go ranges over the maps in.
use mantl_api.Prelude.{
  String, ◌≡◌, sym, ap, ◌∙◌, ◌==◌, eq_iff, eq_refl, Option, none, some, arith, inl, inr, Bool-cases,
}
use mantl_api.Prelude.Outcome.{Result, ok, ◌>>=◌, >>=-eq-ok, ok-injective}
use mantl_api.Json.{Value, Fields, end, field, Codec, get, put, Unique}
use mantl_api.Json.Laws.{get-put}
use mantl_api.Install.Config.Definition.{PackageDefinition}
use mantl_api.Install.Config.Schema.{Group}
use mantl_api.Install.Config.Merge.{group_at, merge_config, merge_value}

module _ {N : Type 0} (c : Codec N) (d : PackageDefinition N) where
  -- What stands for a key after a merge: what `config` has, unless `override` has the key too.
  unfoldable pub merged_at :
      Option (Value N) → Option (Value N) → Group N → Result (Option (Value N))
  merged_at old none g = ok old
  merged_at old (some v) g = do w ← merge_value c d old v g; ok (some w)

  same_key :
      (config override : Fields N) (schema : Group N) (j k : String) (v w : Value N)
      (o : Option (Value N))
      → j ≡ k
      → get j override ≡ none
      → merge_value c d (get j config) v (group_at j schema) ≡ ok w
      → merged_at (get k (put j w config)) (get k override) (group_at k schema) ≡ ok o
      → merged_at (get k config) (some v) (group_at k schema) ≡ ok o
  unfolding merged_at
  same_key config override schema j k v w o p fresh e h =
      rw (← p, e) (rw (← p, fresh, get-put, eq_refl) at h)

  -- If the override binds no key twice, then after a merge that does not panic each key holds what
  -- `merged_at` makes of the key's two values and its schema: the old value if the override lacks
  -- the key, and else the override's value, transformed, or merged into the old one if both are
  -- maps.
  pub get-merge_config :
      (config override : Fields N) (schema : Group N) (k : String) {m : Fields N}
      → Unique override
      → merge_config c d config override schema ≡ ok m
      → merged_at (get k config) (get k override) (group_at k schema) ≡ ok (get k m)
  unfolding merge_config merged_at get
  get-merge_config config end schema k u h = ground arith
  get-merge_config config (field j v override) schema k {m} u h =
      let (w, e, h') = >>=-eq-ok (merge_value c d (get j config) v (group_at j schema)) _ h in
      let ih = get-merge_config (put j w config) override schema k {m = m} u.1 h' in
      elim (Bool-cases (j == k)) [
        | inl p ↦
            rw p (same_key config override schema j k v w (get k m) ((eq_iff j k).0 p) u.0 e ih)
        | inr p ↦ rw p (rw (get-put, p) at ih)
      ]

  -- Two overrides that bind no key twice and have the same values under every key, in whatever
  -- order they are ranged over, merge into a configuration to maps with the same values under
  -- every key, if both merges return.
  pub merge_config-order :
      (config o p : Fields N) (schema : Group N) (k : String) {m n : Fields N}
      → Unique o
      → Unique p
      → ((j : String) → get j o ≡ get j p)
      → merge_config c d config o schema ≡ ok m
      → merge_config c d config p schema ≡ ok n
      → get k m ≡ get k n
  merge_config-order config o p schema k {m} {n} uo up same ho hp = ok-injective (
      sym (get-merge_config config o schema k uo ho)
      ∙ ap (λ (v : Option (Value N)). merged_at (get k config) v (group_at k schema)) (same k)
      ∙ get-merge_config config p schema k up hp)
