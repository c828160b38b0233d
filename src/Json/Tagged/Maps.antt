-- ===== src/Json/Tagged/Maps.antt =====
-- A `map[string]string` is read back as it is written.
use mathlib.Core.List.{append-nil, append_assoc}
use mantl_api.Prelude.Text.Split.{ne_test}
use mantl_api.Prelude.{
  String, ◌≡◌, refl, ap, ◌∙◌, sym, ◌==◌, eq_iff, false, none, [], ◌∷◌, ◌++◌, Bool-cases, inl, inr,
}
use mantl_api.Prelude.Dict.{Map, Unique}
use mantl_api.Prelude.Dict as D
use mantl_api.Prelude.Outcome.{ok}
use mantl_api.Json.{to_string}
use mantl_api.Json.Struct.{map_value, put_strings}

-- The keys of a map are not in one that was read before.
abbrev pub Apart : Map String → Map String → Type 0
Apart [] acc = Unit
Apart ((k, v) ∷ m) acc = (D.get k acc ≡ none) × Apart m acc

pub apart : (m : Map String) → Apart m []
unfolding D.get
apart [] = tt
apart ((k, v) ∷ m) = (refl, apart m)

put-absent : (k v : String) (m : Map String) → D.get k m ≡ none → D.put k v m ≡ m ++ (k, v) ∷ []
unfolding D.get D.put
put-absent k v [] h = refl
put-absent k v ((j, w) ∷ m) h = elim (Bool-cases (j == k)) [
  | inl e ↦ cc (rw e at h)
  | inr e ↦ rw (e, put-absent k v m (rw e at h)) refl
]

get-append :
    (j k v : String) (m : Map String)
    → D.get j m ≡ none
    → (k == j) ≡ false
    → D.get j (m ++ (k, v) ∷ []) ≡ none
unfolding D.get
get-append j k v [] h e = rw e refl
get-append j k v ((i, w) ∷ m) h e = elim (Bool-cases (i == j)) [
  | inl p ↦ cc (rw p at h)
  | inr p ↦ rw (p, get-append j k v m (rw p at h) e) refl
]

Apart-append :
    (k v : String) (m acc : Map String)
    → D.get k m ≡ none
    → Apart m acc
    → Apart m (acc ++ (k, v) ∷ [])
unfolding D.get
Apart-append k v [] acc h p = tt
Apart-append k v ((j, w) ∷ m) acc h p = elim (Bool-cases (j == k)) [
  | inl e ↦ cc (rw e at h)
  | inr e ↦ (
    get-append j k v acc p.0 (ne_test k j (λ q. cc ((eq_iff j k).1 (sym q), e))),
    Apart-append k v m acc (rw e at h) p.1,
  )
]

pub put_strings-map_value :
    (N : Type 0) (m acc : Map String)
    → Unique m
    → Apart m acc
    → put_strings {N = N} (map_value m) acc ≡ ok (acc ++ m)
unfolding put_strings map_value to_string
put_strings-map_value N [] acc u h = ap ok (sym (append-nil acc))
put_strings-map_value N ((k, v) ∷ m) acc u h = rw (put-absent k v acc h.0) (
    put_strings-map_value N m (acc ++ (k, v) ∷ []) u.1 (Apart-append k v m acc u.0 h.1)
    ∙ ap ok (append_assoc acc ((k, v) ∷ []) m))
