-- ===== src/Install/Config/Render/Sharing.antt =====
-- What `Options` of install/package.go leaves of the user's configuration. A map that `mergeConfig`
-- stores for a key that had no map is the user's own, not a copy, and the API's configuration is then
-- merged into it in place.
use mathlib.Core.Option.{get_or, some-injective}
use mantl_api.Prelude.{
  String, ◌≡◌, refl, sym, ap, ◌∙◌, ◌==◌, Option, none, some, inl, inr, Bool-cases, if◌then◌else◌,
}
use mantl_api.Prelude.Outcome.{Result, ok, ◌>>=◌, >>=-eq-ok, ok-injective}
use mantl_api.Json.{Value, obj, Fields, end, field, Codec, get, as_map}
use mantl_api.Install.Config.Definition.{PackageDefinition}
use mantl_api.Install.Config.Render.{Mustache, options_template, options}

module _ {N : Type 0} where
  unfoldable mutual
    -- The user's configuration after both merges, from the options before the first and after the
    -- second.
    pub shared : Fields N → Fields N → Fields N → Fields N
    shared end before after = end
    shared (field k v user) before after =
        field k (shared_value v (get k before) (get k after)) (shared user before after)

    -- A map below a map of the template was merged into that one; another was stored itself.
    pub shared_value : Value N → Option (Value N) → Option (Value N) → Value N
    shared_value (obj m) (some (obj before)) (some (obj after)) = obj (shared m before after)
    shared_value (obj m) (some (obj before)) after = obj m
    shared_value (obj m) before (some (obj after)) = obj after
    shared_value v before after = v

  shared_value-plain :
      (v : Value N) (before after : Option (Value N))
      → as_map (some v) ≡ none
      → shared_value v before after ≡ v
  unfolding shared
  shared_value-plain (obj m) before after h = cc
  shared_value-plain v before after h = refl

  -- A setting of the user's that is no map stays as it is.
  pub get-shared :
      (user before after : Fields N) (j : String) (v : Value N)
      → get j user ≡ some v
      → as_map (some v) ≡ none
      → get j (shared user before after) ≡ some v
  unfolding shared get
  get-shared end before after j v h p = cc
  get-shared (field k u user) before after j v h p = elim (Bool-cases (k == j)) [
    | inl e ↦
        let same : u ≡ v = some-injective _ _ (rw e at h) in
        rw (e, same) (ap some (shared_value-plain v (get k before) (get k after) p))
    | inr e ↦ rw e (get-shared user before after j v (rw e at h) p)
  ]

module _ {N : Type 0} (c : Codec N) (mustache : Mustache N) where
  -- `d.userConfig` after `MergedConfig`
  unfoldable pub user_config_after : PackageDefinition N → Result (Fields N)
  user_config_after d = if d.options_json == "" then ok d.user_config else do
    template ← options_template c mustache d
    merged ← options c mustache d
    ok (shared d.user_config (get_or template end) (get_or merged end))

  -- The user's settings that are no maps are not changed by it.
  pub user_config_after-plain :
      (d : PackageDefinition N) (user : Fields N) (j : String) (v : Value N)
      → user_config_after d ≡ ok user
      → get j d.user_config ≡ some v
      → as_map (some v) ≡ none
      → get j user ≡ some v
  unfolding user_config_after
  user_config_after-plain d user j v h g p = elim (Bool-cases (d.options_json == "")) [
    | inl e ↦ ap (get j) (sym (ok-injective (rw e at h))) ∙ g
    | inr e ↦
        let (template, a, h1) = >>=-eq-ok (options_template c mustache d) _ (rw e at h) in
        let (merged, b, h2) = >>=-eq-ok (options c mustache d) _ h1 in
        ap (get j) (sym (ok-injective h2))
        ∙ get-shared d.user_config (get_or template end) (get_or merged end) j v g p
  ]
