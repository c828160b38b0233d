-- ===== src/Json/Tagged.antt =====
-- A struct as `encoding/json` sees it: the tags of its fields, each with what writes and reads it.
-- Every field has the option `omitempty`, which does nothing for a struct.
pub mod RoundTrip
pub mod Maps
pub mod Kinds
use mantl_api.Prelude.{
  String, ◌==◌, Bool, true, false, not, Option, none, some, List, [], ◌∷◌, if◌then◌else◌,
}
use mantl_api.Prelude.Int.{ℤ}
use mantl_api.Prelude.Dict.{Map}
use mantl_api.Prelude.Text.{equal_fold}
use mantl_api.Prelude.Outcome.{Result, ok, err, ◌>>=◌}
use mantl_api.Json.{Value, null, bool, num, str, arr, obj, Fields, end, field, to_string, to_bool}
use mantl_api.Json.Struct.{
  Numbers, is_zero_int, is_nil, is_empty_map, is_nil_pointer, items_of, map_value, to_list,
  to_string_map, into, to_pointer, to_int, to_float,
}

-- `put` stores this field of one struct into another.
pub record Tag (N S : Type 0) : Type 0 where
  pub key : String
  pub write : S → Option (Value N)
  pub read : Value N → S → Result S
  pub put : S → S → S

module _ {N : Type 0} where
  -- a field in front of the others, if it is written
  unfoldable pub field_if : Option (Value N) → String → Fields N → Fields N
  field_if none k m = m
  field_if (some v) k m = field k v m

  abbrev pub unless : Bool → Value N → Option (Value N)
  unless true v = none
  unless false v = some v

  unfoldable pub map_of : Option (Map String) → Option (Value N)
  map_of none = none
  map_of (some m) = unless (is_nil m) (obj (map_value m))

  unfoldable pub pointed : {T : Type 0} → (T → Fields N) → Option T → Option (Value N)
  pointed write none = none
  pointed write (some t) = some (obj (write t))

module _ {N S : Type 0} where
  -- the first field whose key is that of the document, letter case aside; another key is passed over
  unfoldable pub assign_by : List (Tag N S) → String → Value N → S → Result S
  assign_by [] k v s = ok s
  assign_by (t ∷ ts) k v s =
      let rest = assign_by ts k v s in if equal_fold k t.key then t.read v s else rest

  unfoldable pub encode_by : List (Tag N S) → S → Fields N
  encode_by [] s = end
  encode_by (t ∷ ts) s = field_if (t.write s) t.key (encode_by ts s)

module _ {N S : Type 0} where
  unfoldable pub text_tag : String → (S → String) → (String → S → S) → Tag N S
  text_tag key get set = record {
    key = key;
    write = λ s. unless (get s == "") (str (get s));
    read = λ v s. (do t ← to_string (get s) v; ok (set t s));
    put = λ a s. set (get a) s;
  }

  unfoldable pub flag_tag : String → (S → Bool) → (Bool → S → S) → Tag N S
  flag_tag key get set = record {
    key = key;
    write = λ s. unless (not (get s)) (bool (get s));
    read = λ v s. (do b ← to_bool (get s) v; ok (set b s));
    put = λ a s. set (get a) s;
  }

  unfoldable pub list_tag :
      {A : Type 0}
      → (A → Value N)
      → (Value N → Result A)
      → String
      → (S → List A)
      → (List A → S → S)
      → Tag N S
  list_tag write_one read_one key get set = record {
    key = key;
    write = λ s. unless (is_nil (get s)) (arr (items_of write_one (get s)));
    read = λ v s. (do xs ← to_list read_one v; ok (set xs s));
    put = λ a s. set (get a) s;
  }

  unfoldable pub map_tag :
      String → (S → Option (Map String)) → (Option (Map String) → S → S) → Tag N S
  map_tag key get set = record {
    key = key;
    write = λ s. map_of (get s);
    read = λ v s. (do m ← to_string_map (get s) v; ok (set m s));
    put = λ a s. set (get a) s;
  }

  -- a field of type `*T`, for the fields of `T` and its zero value
  unfoldable pub pointer_tag :
      {T : Type 0} → List (Tag N T) → T → String → (S → Option T) → (Option T → S → S) → Tag N S
  pointer_tag tags new key get set = record {
    key = key;
    write = λ s. pointed (encode_by tags) (get s);
    read = λ v s. (do p ← to_pointer (assign_by tags) new (get s) v; ok (set p s));
    put = λ a s. set (get a) s;
  }

  -- a field of type `T`, which is always written
  unfoldable pub struct_tag :
      {T : Type 0} → List (Tag N T) → String → (S → T) → (T → S → S) → Tag N S
  struct_tag tags key get set = record {
    key = key;
    write = λ s. some (obj (encode_by tags (get s)));
    read = λ v s. (do t ← into (assign_by tags) (get s) v; ok (set t s));
    put = λ a s. set (get a) s;
  }

module _ {N S : Type 0} (n : Numbers N) where
  unfoldable pub int_tag : String → (S → ℤ) → (ℤ → S → S) → Tag N S
  int_tag key get set = record {
    key = key;
    write = λ s. unless (is_zero_int (get s)) (num (n.of_int (get s)));
    read = λ v s. (do i ← to_int n (get s) v; ok (set i s));
    put = λ a s. set (get a) s;
  }

  unfoldable pub float_tag : String → (S → N) → (N → S → S) → Tag N S
  float_tag key get set = record {
    key = key;
    write = λ s. unless (n.is_zero (get s)) (num (get s));
    read = λ v s. (do x ← to_float n (get s) v; ok (set x s));
    put = λ a s. set (get a) s;
  }
