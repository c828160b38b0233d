-- ===== src/Install/Config/Transform/Faults.antt =====
-- When `transformedConfigValue` panics: a value that the transformers of the declared type do not take.
use mathlib.Core.Option.{get_or}
use mantl_api.Prelude.{
  String, ◌≡◌, refl, ◌≢◌, ◌↔◌, inl, inr, arith, ◌==◌, not, ◌||◌, List, [], ◌∷◌, Bool, true, false,
  none, some, if◌then◌else◌,
}
use mantl_api.Prelude.Dict
use mantl_api.Prelude.Dict.{Map}
use mantl_api.Prelude.Outcome.{Result, ok, err, panic, >>=-eq-err}
use mantl_api.Json.{Value, null, bool, num, str, arr, obj, Items, Codec, as_items}
use mantl_api.Install.Config.Definition.{
  PackageDefinition, Transformer, zookeeper_hosts, int_transformer, number_transformer,
}
use mantl_api.Install.Config.Transform.{apply, apply_all, transformed, value_transformers}

-- The values that the transformers of a type take: texts for "string", texts and numbers for
-- "integer" and "number", and any for another type. An array is never handed to them.
accepts_if : {N : Type 0} → (text integer number : Bool) → Value N → Bool
accepts_if text integer number (arr vs) = true
accepts_if text integer number (str s) = true
accepts_if text integer number (num n) = not text
accepts_if text integer number v = not (text || integer || number)

unfoldable pub accepts : {N : Type 0} → String → Value N → Bool
unfolding accepts_if
accepts typ v = accepts_if ("string" == typ) ("integer" == typ) ("number" == typ) v

abbrev listed_if : Bool → Bool → Bool → List Transformer
listed_if text integer number =
    get_or
      (if text
        then some (zookeeper_hosts ∷ [])
        else if integer
        then some (int_transformer ∷ [])
        else if number
        then some (number_transformer ∷ [])
        else none)
      []

module _ {N : Type 0} (c : Codec N) (d : PackageDefinition N) where
  apply_all-panic :
      (text integer number : Bool) (v : Value N)
      → as_items v ≡ none
      → (apply_all c (listed_if text integer number) d v ≡ panic)
        ↔ (accepts_if text integer number v ≡ false)
  unfolding transformed accepts_if
  apply_all-panic true i n null h = (λ e. refl, λ e. refl)
  apply_all-panic true i n (bool b) h = (λ e. refl, λ e. refl)
  apply_all-panic true i n (num x) h = (λ e. refl, λ e. refl)
  apply_all-panic true i n (str s) h = (λ e. cc, λ e. cc)
  apply_all-panic true i n (obj m) h = (λ e. refl, λ e. refl)
  apply_all-panic false true n null h = (λ e. refl, λ e. refl)
  apply_all-panic false true n (bool b) h = (λ e. refl, λ e. refl)
  apply_all-panic false true n (num x) h = (λ e. cc, λ e. cc)
  apply_all-panic false true n (str s) h = (λ e. cc, λ e. cc)
  apply_all-panic false true n (obj m) h = (λ e. refl, λ e. refl)
  apply_all-panic false false true null h = (λ e. refl, λ e. refl)
  apply_all-panic false false true (bool b) h = (λ e. refl, λ e. refl)
  apply_all-panic false false true (num x) h = (λ e. cc, λ e. cc)
  apply_all-panic false false true (str s) h = (λ e. cc, λ e. cc)
  apply_all-panic false false true (obj m) h = (λ e. refl, λ e. refl)
  apply_all-panic false false false (arr vs) h = cc
  apply_all-panic _ _ _ v h = (λ e. cc, λ e. cc)

  transformed_lem :
      (v : Value N) (typ : String)
      → as_items v ≡ none
      → transformed c d v typ ≡ apply_all c (get_or (Dict.get typ d.value_transformers) []) d v
  unfolding transformed
  transformed_lem (arr vs) typ h = cc
  transformed_lem v typ h = refl

listed_lem :
    (m : Map (List Transformer)) (typ : String)
    → m ≡ value_transformers
    → get_or (Dict.get typ m) [] ≡ listed_if ("string" == typ) ("integer" == typ) ("number" == typ)
unfolding Dict.get
listed_lem m typ h = rw h

module _ {N : Type 0} (c : Codec N) (d : PackageDefinition N)
    (standard : d.value_transformers ≡ value_transformers) where
  plain-panic :
      (v : Value N) (typ : String)
      → as_items v ≡ none
      → (transformed c d v typ ≡ panic) ↔ (accepts typ v ≡ false)
  unfolding accepts
  plain-panic v typ h =
      rw (transformed_lem c d v typ h, listed_lem d.value_transformers typ standard)
        (apply_all-panic c d _ _ _ v h)

  array-ne-panic :
      (vs : Items N) (typ : String) (r : Result String)
      → c.marshal vs ≡ r
      → r ≢ panic
      → transformed c d (arr vs) typ ≢ panic
  unfolding transformed
  array-ne-panic vs typ (ok s) e h = rw (e, transformed) (λ p. cc)
  array-ne-panic vs typ (err s) e h = rw (e, transformed) (λ p. cc)
  array-ne-panic vs typ panic e h = absurd (h refl)

  -- Under the program's transformers, and where the encoder does not panic, a value is refused, by a
  -- panic, exactly when it is neither an array nor a text, and its declared type is "string", or is
  -- "integer" or "number" while the value is no number. Nothing else is refused: a text passes for a
  -- number, an array for any type, and any value for a type other than those three.
  pub transformed-panic :
      ((vs : Items N) → c.marshal vs ≢ panic)
      → (v : Value N) (typ : String) → (transformed c d v typ ≡ panic) ↔ (accepts typ v ≡ false)
  unfolding accepts
  transformed-panic total (arr vs) typ =
      (λ h. absurd (array-ne-panic vs typ (c.marshal vs) refl (total vs) h), λ h. cc)
  transformed-panic total null typ = plain-panic null typ refl
  transformed-panic total (bool b) typ = plain-panic (bool b) typ refl
  transformed-panic total (num x) typ = plain-panic (num x) typ refl
  transformed-panic total (str s) typ = plain-panic (str s) typ refl
  transformed-panic total (obj m) typ = plain-panic (obj m) typ refl

module _ {N : Type 0} (c : Codec N) (d : PackageDefinition N) where
  apply-ne-err : (t : Transformer) (v : Value N) (e : String) → apply c t d v ≢ err e
  unfolding apply
  apply-ne-err zookeeper_hosts v e h = ground arith
  apply-ne-err int_transformer v e h = ground arith
  apply-ne-err number_transformer v e h = ground arith

  apply_all-ne-err : (ts : List Transformer) (v : Value N) (e : String) → apply_all c ts d v ≢ err e
  unfolding apply_all
  apply_all-ne-err [] v e h = cc
  apply_all-ne-err (t ∷ ts) v e h = elim (>>=-eq-err (apply c t d v) _ h) [
    | inl p ↦ apply-ne-err t v e p
    | inr (s, _, p) ↦ apply_all-ne-err ts (str s) e p
  ]

  -- A value is transformed or refused by a panic, never by an error.
  pub transformed-ne-err : (v : Value N) (typ e : String) → transformed c d v typ ≢ err e
  unfolding transformed
  transformed-ne-err (arr vs) typ e h = ground arith
  transformed-ne-err v typ e h =
      apply_all-ne-err (get_or (Dict.get typ d.value_transformers) []) v e h
