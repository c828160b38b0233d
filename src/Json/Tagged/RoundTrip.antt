-- ===== src/Json/Tagged/RoundTrip.antt =====
-- What a struct is written as is read back.
use mantl_api.Prelude.{◌≡◌, refl, ap, ◌∙◌, sym, Option, none, some, List, [], ◌∷◌}
use mantl_api.Prelude.Outcome.{ok}
use mantl_api.Json.{Value, Fields, to_struct}
use mantl_api.Json.Tagged.{Tag, assign_by, field_if, encode_by}

module _ {N S : Type 0} where
  -- A field of `a` that is written is read into `s`, and one that is left out is in `s` already.
  pub record Reads (tags : List (Tag N S)) (t : Tag N S) (a s : S) : Type 0 where
    pub finds : (v : Value N) → assign_by tags t.key v s ≡ t.read v s
    pub written : (v : Value N) → t.write a ≡ some v → t.read v s ≡ ok (t.put a s)
    pub omitted : t.write a ≡ none → t.put a s ≡ s

  -- From `s`, the fields of `a` make `u`.
  abbrev pub Chain : List (Tag N S) → List (Tag N S) → S → S → S → Type 0
  Chain tags [] a s u = s ≡ u
  Chain tags (t ∷ ts) a s u = Reads tags t a s × Chain tags ts a (t.put a s) u

  field_if-Reads :
      (tags : List (Tag N S)) (t : Tag N S) (a s : S) (m : Fields N) (o : Option (Value N))
      → Reads tags t a s
      → t.write a ≡ o
      → to_struct (assign_by tags) (field_if o t.key m) s ≡ to_struct (assign_by tags) m (t.put a s)
  unfolding to_struct field_if
  field_if-Reads tags t a s m none r e = ap (to_struct (assign_by tags) m) (sym (r.omitted e))
  field_if-Reads tags t a s m (some v) r e = rw (r.finds v ∙ r.written v e) refl

  pub to_struct-encode_by :
      (tags ts : List (Tag N S)) (a s u : S)
      → Chain tags ts a s u
      → to_struct (assign_by tags) (encode_by ts a) s ≡ ok u
  unfolding encode_by to_struct
  to_struct-encode_by tags [] a s u h = ap ok h
  to_struct-encode_by tags (t ∷ ts) a s u h =
      field_if-Reads tags t a s (encode_by ts a) (t.write a) h.0 refl
      ∙ to_struct-encode_by tags ts a (t.put a s) u h.1
