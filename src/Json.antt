-- ===== src/Json.antt =====
-- The values of `encoding/json` as the program sees them: `interface{}` holding what a document
-- decodes to, `map[string]interface{}`, and the assignment of a document's keys to a struct.
-- A `float64` is a value of the type `N`; its operations and the text of documents are parameters.
pub mod Laws
pub mod Struct
pub mod Tagged
use mantl_api.Prelude.{
  String, ◌==◌, ◌≡◌, Bool, true, false, Option, none, some, List, [], ◌∷◌, if◌then◌else◌,
}
use mantl_api.Prelude.Int.{ℤ}
use mantl_api.Prelude.Outcome.{Result, ok, err, panic, ◌>>=◌}

mutual
  pub data Value (N : Type 0) : Type 0 where
    null : Value N
    bool : Bool → Value N
    num : N → Value N
    str : String → Value N
    arr : Items N → Value N
    obj : Fields N → Value N

  pub data Items (N : Type 0) : Type 0 where
    nil : Items N
    cons : Value N → Items N → Items N

  -- a Go map, in the order of one `range` over it
  pub data Fields (N : Type 0) : Type 0 where
    end : Fields N
    field : String → Value N → Fields N → Fields N

-- What the program uses of `float64` and of the text format of JSON.
pub record Codec (N : Type 0) : Type 0 where
  -- `int(f)`
  pub truncate : N → ℤ
  -- `fmt.Sprintf("%0.2f", f)`
  pub two_places : N → String
  -- `json.Unmarshal` into an `interface{}`
  pub parse : String → Result (Value N)
  -- `json.Marshal` of a `[]interface{}`
  pub marshal : Items N → Result String

abbrev pub mismatch {ℓ} : {A : Type ℓ} → Result A
mismatch = err "json: cannot unmarshal value"

module _ {N : Type 0} where
  -- `v, ok := m[k]`
  unfoldable pub get : String → Fields N → Option (Value N)
  get k end = none
  get k (field j v m) = let rest = get k m in if j == k then some v else rest

  -- `m[k] = v`
  unfoldable pub put : String → Value N → Fields N → Fields N
  put k v end = field k v end
  put k v (field j w m) = let rest = put k v m in if j == k then field k v m else field j w rest

  -- No key is bound twice.
  abbrev pub Unique : Fields N → Type 0
  Unique end = Unit
  Unique (field k v m) = (get k m ≡ none) × Unique m

  -- `v.(map[string]interface{})`, of a value that may be missing
  abbrev pub as_map : Option (Value N) → Option (Fields N)
  as_map (some (obj m)) = some m
  as_map _ = none

  -- `v.([]interface{})` with a comma ok
  abbrev pub as_items : Value N → Option (Items N)
  as_items (arr vs) = some vs
  as_items _ = none

  -- `v.(string)` with a comma ok
  abbrev pub as_string : Option (Value N) → Option String
  as_string (some (str s)) = some s
  as_string _ = none

  -- Decoding into a field of type `string`, `bool` or `[]string`: `null` leaves the field alone.
  unfoldable pub to_string : String → Value N → Result String
  to_string old null = ok old
  to_string old (str s) = ok s
  to_string old _ = mismatch

  unfoldable pub to_bool : Bool → Value N → Result Bool
  to_bool old null = ok old
  to_bool old (bool b) = ok b
  to_bool old _ = mismatch

  strings : Items N → Result (List String)
  unfolding to_string
  strings nil = ok []
  strings (cons v vs) = do s ← to_string "" v; rest ← strings vs; ok (s ∷ rest)

  unfoldable pub to_strings : Value N → Result (List String)
  unfolding strings
  to_strings null = ok []
  to_strings (arr vs) = strings vs
  to_strings _ = mismatch

  -- Decoding into a `map[string]interface{}`.
  unfoldable pub to_map : Value N → Result (Fields N)
  to_map null = ok end
  to_map (obj m) = ok m
  to_map _ = mismatch

  -- Decoding into a struct: `assign` stores the value of one key, and skips the keys it has no
  -- field for.
  unfoldable pub to_struct {ℓ} :
      {S : Type ℓ} → (String → Value N → S → Result S) → Fields N → S → Result S
  to_struct assign end s = ok s
  to_struct assign (field k v m) s = do s' ← assign k v s; to_struct assign m s'
