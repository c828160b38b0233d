-- ===== src/Json/Tagged/Kinds.antt =====
-- The fields of each kind are read back as they are written.
use mathlib.Core.Option.{some-injective}
use mantl_api.Prelude.{
  String, ◌≡◌, refl, ap, ◌∙◌, ◌==◌, eq_iff, Bool, true, false, not, Option, none, some, List, [],
  ◌∷◌, arith,
}
use mantl_api.Json.Tagged.Maps.{apart, put_strings-map_value}
use mathlib.Core.Path.{subst}
use mantl_api.Prelude.Dict.{Map, Unique}
use mantl_api.Prelude.Lists.{All}
use mantl_api.Prelude.Int.{ℤ, pos, negsuc}
use mantl_api.Prelude.Outcome.{Result, ok, ◌>>=◌}
use mantl_api.Json.{Value, bool, num, str, arr, obj, to_string, to_bool, to_struct}
use mantl_api.Json.Struct.{
  Numbers, is_zero_int, is_nil, items_of, map_value, each_item, to_list, to_string_map, into,
  to_pointer, to_int, to_float,
}
use mantl_api.Json.Tagged.{
  Tag, unless, map_of, pointed, assign_by, encode_by, text_tag, flag_tag, list_tag, map_tag,
  pointer_tag, struct_tag, int_tag, float_tag,
}
use mantl_api.Json.Tagged.RoundTrip.{Reads}

module _ {N : Type 0} where
  unless-some : (b : Bool) (v w : Value N) → unless b v ≡ some w → v ≡ w
  unless-some true v w h = cc
  unless-some false v w h = cc

  unless-none : (b : Bool) (v : Value N) → unless b v ≡ none → b ≡ true
  unless-none true v h = refl
  unless-none false v h = cc

  pub each_item-items_of :
      {A : Type 0} (write : A → Value N) (read : Value N → Result A) (xs : List A)
      → All (λ x. read (write x) ≡ ok x) xs
      → each_item read (items_of write xs) ≡ ok xs
  unfolding each_item items_of
  each_item-items_of write read [] h = refl
  each_item-items_of write read (x ∷ xs) h = rw (h.0, each_item-items_of write read xs h.1) refl

module _ {N S : Type 0} (tags : List (Tag N S)) (key : String) (a s : S) where
  abbrev Finds : Tag N S → Type 0
  Finds t = (v : Value N) → assign_by tags key v s ≡ t.read v s

  pub text_tag-Reads :
      (get : S → String) (set : String → S → S)
      → Finds (text_tag key get set)
      → set "" s ≡ s
      → Reads tags (text_tag key get set) a s
  unfolding text_tag to_string
  text_tag-Reads get set f e = record {
    finds = f;
    written = λ v h. rw (← unless-some (get a == "") (str (get a)) v h) refl;
    omitted = λ h.
        ap (λ x. set x s) ((eq_iff (get a) "").0 (unless-none (get a == "") (str (get a)) h)) ∙ e;
  }

  off : (b : Bool) → not b ≡ true → b ≡ false
  off true h = cc
  off false h = refl

  pub flag_tag-Reads :
      (get : S → Bool) (set : Bool → S → S)
      → Finds (flag_tag key get set)
      → set false s ≡ s
      → Reads tags (flag_tag key get set) a s
  unfolding flag_tag to_bool
  flag_tag-Reads get set f e = record {
    finds = f;
    written = λ v h. rw (← unless-some (not (get a)) (bool (get a)) v h) refl;
    omitted = λ h. ap (λ x. set x s) (off (get a) (unless-none (not (get a)) (bool (get a)) h)) ∙ e;
  }

  nil_of : {A : Type 0} (xs : List A) → is_nil xs ≡ true → xs ≡ []
  nil_of [] h = refl
  nil_of (x ∷ xs) h = cc

  pub list_tag-Reads :
      {A : Type 0} (write : A → Value N) (read : Value N → Result A) (get : S → List A)
      (set : List A → S → S)
      → All (λ x. read (write x) ≡ ok x) (get a)
      → Finds (list_tag write read key get set)
      → set [] s ≡ s
      → Reads tags (list_tag write read key get set) a s
  unfolding list_tag to_list
  list_tag-Reads write read get set one f e = record {
    finds = f;
    written = λ v h.
        rw
          (
            ← unless-some (is_nil (get a)) (arr (items_of write (get a))) v h,
            each_item-items_of write read (get a) one,
          )
          refl;
    omitted = λ h.
        ap (λ x. set x s)
          (nil_of (get a) (unless-none (is_nil (get a)) (arr (items_of write (get a))) h))
        ∙ e;
  }

  -- The numbers that the struct holds are read as they are written.
  pub int_tag-Reads :
      (n : Numbers N) (get : S → ℤ) (set : ℤ → S → S)
      → n.to_int (n.of_int (get a)) ≡ ok (get a)
      → Finds (int_tag n key get set)
      → set (pos 0) s ≡ s
      → Reads tags (int_tag n key get set) a s
  unfolding int_tag to_int
  int_tag-Reads n get set r f e = record {
    finds = f;
    written = λ v h. rw (← unless-some (is_zero_int (get a)) (num (n.of_int (get a))) v h, r) refl;
    omitted = λ h.
        ap (λ x. set x s)
          (naught (get a) (unless-none (is_zero_int (get a)) (num (n.of_int (get a))) h))
        ∙ e;
  }
    where
      naught : (i : ℤ) → is_zero_int i ≡ true → i ≡ pos 0
      naught (pos m) h = ap pos (ground (arith, h))
      naught (negsuc m) h = cc

  pub float_tag-Reads :
      (n : Numbers N) (get : S → N) (set : N → S → S)
      → (n.is_zero (get a) ≡ true → get a ≡ n.nought)
      → Finds (float_tag n key get set)
      → set n.nought s ≡ s
      → Reads tags (float_tag n key get set) a s
  unfolding float_tag to_float
  float_tag-Reads n get set z f e = record {
    finds = f;
    written = λ v h. rw (← unless-some (n.is_zero (get a)) (num (get a)) v h) refl;
    omitted = λ h. ap (λ x. set x s) (z (unless-none (n.is_zero (get a)) (num (get a)) h)) ∙ e;
  }

  pub pointer_tag-Reads :
      {T : Type 0} (inner : List (Tag N T)) (new : T) (get : S → Option T) (set : Option T → S → S)
      → ((t : T) → get a ≡ some t → to_struct (assign_by inner) (encode_by inner t) new ≡ ok t)
      → get s ≡ none
      → Finds (pointer_tag inner new key get set)
      → set none s ≡ s
      → Reads tags (pointer_tag inner new key get set) a s
  unfolding pointer_tag pointed to_pointer
  pointer_tag-Reads {T} inner new get set one g f e = record {
    finds = f;
    written = λ v h. there (get a) one v h;
    omitted = λ h. gone (get a) h;
  }
    where
      there :
          (o : Option T)
          → ((t : T) → o ≡ some t → to_struct (assign_by inner) (encode_by inner t) new ≡ ok t)
          → (v : Value N) → pointed (encode_by inner) o ≡ some v
          → (to_pointer (assign_by inner) new (get s) v >>= λ p. ok (set p s)) ≡ ok (set o s)
      there none k v h = cc
      there (some t) k v h =
          subst
            (λ x.
              (to_pointer (assign_by inner) new (get s) x >>= λ p. ok (set p s))
              ≡ ok (set (some t) s))
            (some-injective _ _ h) (rw (g, k t refl) refl)

      gone : (o : Option _) → pointed (encode_by inner) o ≡ none → set o s ≡ s
      gone none h = e
      gone (some t) h = cc

  pub struct_tag-Reads :
      {T : Type 0} (inner : List (Tag N T)) (get : S → T) (set : T → S → S)
      → to_struct (assign_by inner) (encode_by inner (get a)) (get s) ≡ ok (get a)
      → Finds (struct_tag inner key get set)
      → Reads tags (struct_tag inner key get set) a s
  unfolding struct_tag into
  struct_tag-Reads inner get set one f = record {
    finds = f;
    written = λ v h.
        subst (λ x. (into (assign_by inner) (get s) x >>= λ t. ok (set t s)) ≡ ok (set (get a) s))
          (some-injective _ _ h) (rw one refl);
    omitted = λ h. cc;
  }

  -- A map that is there is not empty, and no key of it is bound twice.
  pub map_tag-Reads :
      (get : S → Option (Map String)) (set : Option (Map String) → S → S)
      → ((m : Map String) → get a ≡ some m → (is_nil m ≡ false) × Unique m)
      → get s ≡ none
      → Finds (map_tag key get set)
      → set none s ≡ s
      → Reads tags (map_tag key get set) a s
  unfolding map_tag map_of to_string_map
  map_tag-Reads get set one g f e = record {
    finds = f;
    written = λ v h. there (get a) one v h;
    omitted = λ h. gone (get a) one h;
  }
    where
      there :
          (o : Option (Map String))
          → ((m : Map String) → o ≡ some m → (is_nil m ≡ false) × Unique m)
          → (v : Value N) → map_of o ≡ some v
          → (to_string_map (get s) v >>= λ m. ok (set m s)) ≡ ok (set o s)
      there none k v h = cc
      there (some m) k v h =
          rw
            (
              ← unless-some (is_nil m) (obj (map_value m)) v h,
              g,
              put_strings-map_value N m [] (k m refl).1 (apart m),
            )
            refl

      gone :
          (o : Option (Map String))
          → ((m : Map String) → o ≡ some m → (is_nil m ≡ false) × Unique m)
          → map_of {N = N} o ≡ none
          → set o s ≡ s
      gone none k h = e
      gone (some m) k h = cc ((k m refl).0, unless-none (is_nil m) (obj (map_value m)) h)
