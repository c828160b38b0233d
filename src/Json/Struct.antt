-- ===== src/Json/Struct.antt =====
-- How `encoding/json` reads and writes the fields of a struct: numbers, lists, maps and pointers, and
-- the option `omitempty`.
use mathlib.Core.Option.{get_or}
use mantl_api.Prelude.{
  String, eqb, Bool, true, false, Option, none, some, List, [], ◌∷◌, if◌then◌else◌,
}
use mantl_api.Prelude.Dict.{Map}
use mantl_api.Prelude.Dict as D
use mantl_api.Prelude.Int.{ℤ, pos}
use mantl_api.Prelude.Outcome.{Result, ok, ◌>>=◌}
use mantl_api.Json.{
  Value, null, num, str, arr, obj, Items, nil, cons, Fields, end, field, mismatch, to_string,
  to_struct,
}

-- The numbers of a document, as `float64` and as `int`.
pub record Numbers (N : Type 0) : Type 0 where
  pub nought : N
  pub is_zero : N → Bool
  pub of_int : ℤ → N
  -- an error for a number that is no `int`
  pub to_int : N → Result ℤ

abbrev pub is_zero_int : ℤ → Bool
is_zero_int (pos n) = eqb n 0
is_zero_int _ = false

abbrev pub is_nil {ℓ} : {A : Type ℓ} → List A → Bool
is_nil [] = true
is_nil (x ∷ xs) = false

-- an `omitempty` field of a map: nil or empty
abbrev pub is_empty_map : Option (Map String) → Bool
is_empty_map none = true
is_empty_map (some m) = is_nil m

abbrev pub is_nil_pointer : {A : Type 0} → Option A → Bool
is_nil_pointer none = true
is_nil_pointer (some a) = false

module _ {N : Type 0} where
  -- a field that is left out if it is empty
  unfoldable pub omit_if : Bool → String → Value N → Fields N → Fields N
  omit_if b k v m = if b then m else field k v m

  unfoldable pub items_of {ℓ} : {A : Type ℓ} → (A → Value N) → List A → Items N
  items_of f [] = nil
  items_of f (x ∷ xs) = cons (f x) (items_of f xs)

  unfoldable pub map_value : Map String → Fields N
  map_value [] = end
  map_value ((k, v) ∷ m) = field k (str v) (map_value m)

  unfoldable pub each_item {ℓ} : {A : Type ℓ} → (Value N → Result A) → Items N → Result (List A)
  each_item read nil = ok []
  each_item read (cons v vs) = do x ← read v; xs ← each_item read vs; ok (x ∷ xs)

  -- decoding into a slice
  unfoldable pub to_list {ℓ} : {A : Type ℓ} → (Value N → Result A) → Value N → Result (List A)
  to_list read null = ok []
  to_list read (arr vs) = each_item read vs
  to_list read _ = mismatch

  -- decoding into a `map[string]string`, which keeps the keys it has
  unfoldable pub put_strings : Fields N → Map String → Result (Map String)
  put_strings end m = ok m
  put_strings (field k v more) m = do s ← to_string "" v; put_strings more (D.put k s m)

  unfoldable pub to_string_map : Option (Map String) → Value N → Result (Option (Map String))
  to_string_map old null = ok none
  to_string_map old (obj fs) = do m ← put_strings fs (get_or old []); ok (some m)
  to_string_map old _ = mismatch

  -- decoding into a struct that is there, and into a pointer to one
  unfoldable pub into : {S : Type 0} → (String → Value N → S → Result S) → S → Value N → Result S
  into assign old null = ok old
  into assign old (obj m) = to_struct assign m old
  into assign old _ = mismatch

  unfoldable pub to_pointer :
      {S : Type 0} → (String → Value N → S → Result S) → S → Option S → Value N → Result (Option S)
  to_pointer assign new old null = ok none
  to_pointer assign new old (obj m) = do s ← to_struct assign m (get_or old new); ok (some s)
  to_pointer assign new old _ = mismatch

module _ {N : Type 0} (n : Numbers N) where
  unfoldable pub to_int : ℤ → Value N → Result ℤ
  to_int old null = ok old
  to_int old (num x) = n.to_int x
  to_int old _ = mismatch

  unfoldable pub to_float : N → Value N → Result N
  to_float old null = ok old
  to_float old (num x) = ok x
  to_float old _ = mismatch
