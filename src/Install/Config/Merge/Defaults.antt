-- ===== src/Install/Config/Merge/Defaults.antt =====
-- What the defaults of a schema hold under each key, whatever order Go ranges over it in.
use mathlib.Core.Option.{or_else}
use mantl_api.Prelude.{
  String, ◌≡◌, sym, ◌∙◌, ◌==◌, eq_iff, Option, none, some, arith, if◌then◌else◌, inl, inr,
  Bool-cases,
}
use mantl_api.Prelude.Outcome.{Result, ok, ◌>>=◌, >>=-eq-ok, ok-injective}
use mantl_api.Json.{Value, null, obj, Fields, end, Codec, get, put}
use mantl_api.Json.Laws.{get-put}
use mantl_api.Install.Config.Definition.{PackageDefinition}
use mantl_api.Install.Config.Schema
use mantl_api.Install.Config.Schema.{Group, group, Properties, none_left, property, properties_of}
use mantl_api.Install.Config.Transform.{transformed}
use mantl_api.Install.Config.Merge.{default_config, default_each, default_at}

module _ {N : Type 0} (c : Codec N) (d : PackageDefinition N) where
  -- The default of one group, apart from the map it goes into: its own, or one that is built of
  -- its properties' if it is an object, or none.
  pub default_value : Group N → Result (Option (Value N))
  default_value (group _ typ _ ps _ _ null) =
      if typ == "object" then (do m ← default_each c d ps end; ok (some (obj m))) else ok none
  default_value (group _ typ _ ps _ _ v) = do t ← transformed c d v typ; ok (some t)

  store : String → Option (Value N) → Fields N → Fields N
  store name none m = m
  store name (some v) m = put name v m

  default_at_lem :
      (name : String) (g : Group N) (m : Fields N)
      → default_at c d name g m ≡ (do o ← default_value g; ok (store name o m))
  unfolding default_config default_value store
  default_at_lem name (group _ typ _ ps _ _ null) m = ground arith
  default_at_lem name (group _ typ _ ps _ _ v) m = ground arith

  pub defaulted_at : Option (Value N) → Option (Group N) → Result (Option (Value N))
  defaulted_at old none = ok old
  defaulted_at old (some g) = do o ← default_value g; ok (or_else o old)

  get-store :
      (j k : String) (o : Option (Value N)) (m : Fields N)
      → get k (store j o m) ≡ (if j == k then or_else o (get k m) else get k m)
  unfolding store or_else
  get-store j k none m = ground arith
  get-store j k (some v) m = rw get-put (ground arith)

  get-default_at :
      (j k : String) (g : Group N) (acc acc' : Fields N)
      → default_at c d j g acc ≡ ok acc'
      → (if j == k then defaulted_at (get k acc) (some g) else ok (get k acc)) ≡ ok (get k acc')
  unfolding defaulted_at
  get-default_at j k g acc acc' h =
      let (o, e, q) = >>=-eq-ok (default_value g) _ (sym (default_at_lem j g acc) ∙ h) in
      rw (← ok-injective q, get-store, e) (ground arith)

  get-default_each :
      (ps : Properties N) (acc : Fields N) (k : String) {m : Fields N}
      → Schema.Unique ps
      → default_each c d ps acc ≡ ok m
      → defaulted_at (get k acc) (Schema.find k ps) ≡ ok (get k m)
  unfolding default_config defaulted_at Schema.find
  get-default_each none_left acc k u h = ground arith
  get-default_each (property j g ps) acc k {m} u h =
      let (acc', e, h') = >>=-eq-ok (default_at c d j g acc) _ h in
      let ih = get-default_each ps acc' k {m = m} u.1 h' in
      let now = get-default_at j k g acc acc' e in
      elim (Bool-cases (j == k)) [
        | inl p ↦
            let fresh : Schema.find k ps ≡ none = rw ((eq_iff j k).0 p) at u.0 in
            rw p ((rw p at now) ∙ (rw fresh at ih))
        | inr p ↦ rw (p, ok-injective (rw p at now)) ih
      ]

  -- If a schema declares no property twice, its defaults hold under each key the default of that
  -- property, transformed, or the map of its own properties' defaults if it is an object without
  -- one, and nothing under other keys.
  pub get-default_config :
      (g : Group N) (k : String) {m : Fields N}
      → Schema.Unique (properties_of g)
      → default_config c d g ≡ ok m
      → defaulted_at none (Schema.find k (properties_of g)) ≡ ok (get k m)
  unfolding default_config get
  get-default_config (group _ _ _ ps _ _ _) k u h = get-default_each ps end k u h
