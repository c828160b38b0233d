-- ===== src/Main/Laws.antt =====
-- The sources that are synchronized.
use mathlib.Core.Path.{subst}
use mantl_api.Prelude.{
  String, ◌≡◌, refl, ◌≢◌, ap, sym, ◌∙◌, true, List, [], ◌∷◌, inl, inr, ◌⊎◌, Bool-cases,
}
use mantl_api.Prelude.Lists.{In}
use mantl_api.Prelude.Outcome.{ok, ok-injective, >>=-eq-ok}
use mantl_api.Json.{Value, null, bool, num, str, arr, obj, Fields, end, field}
use mantl_api.Install.Source.{Source, is_valid}
use mantl_api.Main.{Int64, default_sources, source_of, must_map, configured, or_default, sources}

module _ {N : Type 0} (int64 : Int64 N) where
  -- a binding of the configuration
  abbrev pub Binds : String → Fields N → Fields N → Type 0
  Binds name config end = ⊥
  Binds name config (field k v more) = ((k ≡ name) × (v ≡ obj config)) ⊎ Binds name config more

  must_map-ok : (v : Value N) (m : Fields N) → must_map int64 v ≡ ok m → v ≡ obj m
  unfolding must_map
  must_map-ok (obj c) m h = ap obj (ok-injective h)
  must_map-ok null m h = cc
  must_map-ok (bool b) m h = cc
  must_map-ok (num n) m h = cc
  must_map-ok (str s) m h = cc
  must_map-ok (arr vs) m h = cc

  configured-In :
      (config : Fields N) (ss : List Source) (s : Source)
      → configured int64 config ≡ ok ss
      → In s ss
      → (is_valid s ≡ true)
        × ((name : String) × (c : Fields N) × Binds name c config × (s ≡ source_of int64 name c))
  unfolding configured
  configured-In end ss s h m = absurd (subst (λ l. In s l) (sym (ok-injective h)) m)
  configured-In (field name val more) ss s h m =
      let (c, p, h1) = >>=-eq-ok (must_map int64 val) _ h in
      let (rest, q, h2) = >>=-eq-ok (configured int64 more) _ h1 in
      let m' = subst (λ l. In s l) (sym (ok-injective h2)) m in
      elim (Bool-cases (is_valid (source_of int64 name c))) [
        | inr e ↦
            let (v, (n, d, b, t)) = configured-In more rest s q (rw e at m') in
            (v, (n, d, inr b, t))
        | inl e ↦ elim (rw e at m') [
          | inl t ↦ (rw t e, (name, c, inl (refl, must_map-ok val c p), t))
          | inr r ↦ let (v, (n, d, b, t)) = configured-In more rest s q r in (v, (n, d, inr b, t))
        ]
      ]

  or_default-cases :
      (cs : List Source) (s : Source)
      → In s (or_default int64 cs)
      → In s cs ⊎ ((cs ≡ []) × In s default_sources)
  unfolding or_default
  or_default-cases [] s m = inr (refl, m)
  or_default-cases (c ∷ cs) s m = inl m

  or_default-ne : (cs : List Source) → or_default int64 cs ≢ []
  unfolding or_default
  or_default-ne [] h = cc
  or_default-ne (c ∷ cs) h = cc

  -- When the configuration is read, there is a source to synchronize, and each is valid and is either
  -- made of a binding of the configuration or, if the configuration has no valid source, the default.
  pub sources-In :
      (config : Fields N) (ss : List Source)
      → sources int64 config ≡ ok ss
      → (ss ≢ [])
        × ((s : Source)
            → In s ss
            → (is_valid s ≡ true)
              × (((name : String) × (c : Fields N) × Binds name c config
                    × (s ≡ source_of int64 name c))
                  ⊎ ((configured int64 config ≡ ok []) × In s default_sources)))
  unfolding sources is_valid
  sources-In config ss h =
      let (cs, p, q) = >>=-eq-ok (configured int64 config) _ h in
      let e = ok-injective q in
      (
        λ n. or_default-ne cs (e ∙ n),
        λ s m. elim (or_default-cases cs s (subst (λ l. In s l) (sym e) m)) [
          | inl k ↦ let (v, b) = configured-In config cs s p k in (v, inl b)
          | inr (z, d) ↦ elim d [ inl t ↦ (rw t refl, inr (p ∙ ap ok z, inl t)) | inr f ↦ absurd f ]
        ],
      )
