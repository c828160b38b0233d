-- ===== src/Prelude/Slash/Texts.antt =====
-- `path.Join` of texts that are joins of plain elements themselves.
use Prim.Native.String.{String, ◌++◌}
use mathlib.Core.Path.{◌≡◌, refl, ap, ◌∙◌, sym}
use mathlib.Core.Bool.{false}
use mathlib.Core.List.{List, [], ◌∷◌, ◌++◌ as ◌<>◌, append-nil}
use text.Mathlib.Text.{◌==◌}
use text.Mathlib.TextLemmas.{append_assoc}
use mantl_api.Prelude.Lists.{All}
use mantl_api.Prelude.Text.{join}
use mantl_api.Prelude.Slash.{drop_empty, path_join}
use mantl_api.Prelude.Slash.Plain.{IsPlain, starts, nonempty, clean-join}

-- one element or more
abbrev pub Parts : Type 0
Parts = String × List String

abbrev pub part_text : Parts → String
part_text (p, ps) = join (p ∷ ps) "/"

abbrev pub all_parts : List Parts → List String
all_parts [] = []
all_parts ((p, ps) ∷ more) = p ∷ (ps <> all_parts more)

abbrev pub part_texts : List Parts → List String
part_texts [] = []
part_texts (x ∷ xs) = part_text x ∷ part_texts xs

abbrev pub ArePlain : List Parts → Type 0
ArePlain [] = Unit
ArePlain ((p, ps) ∷ more) = All IsPlain (p ∷ ps) × ArePlain more

join-append :
    (p : String) (ps : List String) (q : String) (qs : List String)
    → join (p ∷ (ps <> q ∷ qs)) "/" ≡ join (p ∷ ps) "/" ++ "/" ++ join (q ∷ qs) "/"
unfolding join
join-append p [] q qs = refl
join-append p (r ∷ ps) q qs =
    ap (λ t. p ++ "/" ++ t) (join-append r ps q qs)
    ∙ ap (λ t. p ++ t) (sym (append_assoc "/" (join (r ∷ ps) "/") ("/" ++ join (q ∷ qs) "/")))
    ∙ sym (append_assoc p ("/" ++ join (r ∷ ps) "/") ("/" ++ join (q ∷ qs) "/"))

join-part_texts :
    (p : String) (ps : List String) (xs : List Parts)
    → join (part_texts ((p, ps) ∷ xs)) "/" ≡ join (all_parts ((p, ps) ∷ xs)) "/"
unfolding join
join-part_texts p ps [] = ap (λ l. join (p ∷ l) "/") (sym (append-nil ps))
join-part_texts p ps ((q, qs) ∷ xs) =
    ap (λ t. part_text (p, ps) ++ "/" ++ t) (join-part_texts q qs xs)
    ∙ sym (join-append p ps q (qs <> all_parts xs))

plain-append : (ps qs : List String) → All IsPlain ps → All IsPlain qs → All IsPlain (ps <> qs)
plain-append [] qs h k = k
plain-append (p ∷ ps) qs h k = (h.0, plain-append ps qs h.1 k)

all_parts-IsPlain : (xs : List Parts) → ArePlain xs → All IsPlain (all_parts xs)
all_parts-IsPlain [] h = tt
all_parts-IsPlain ((p, ps) ∷ xs) h =
    (h.0.0, plain-append ps (all_parts xs) h.0.1 (all_parts-IsPlain xs h.1))

filled : (p : String) (ps : List String) → All IsPlain (p ∷ ps) → (part_text (p, ps) == "") ≡ false
filled p ps h = let (c, t, e, n) = starts p ps h.0 in ap (λ s. s == "") e ∙ nonempty c t

drop_empty-part_texts : (xs : List Parts) → ArePlain xs → drop_empty (part_texts xs) ≡ part_texts xs
unfolding drop_empty
drop_empty-part_texts [] h = refl
drop_empty-part_texts ((p, ps) ∷ xs) h = rw (filled p ps h.0, drop_empty-part_texts xs h.1) refl

-- The join of such texts is the join of all their elements.
pub path_join-part_texts :
    (p : String) (ps : List String) (xs : List Parts)
    → ArePlain ((p, ps) ∷ xs)
    → path_join (part_texts ((p, ps) ∷ xs)) ≡ join (all_parts ((p, ps) ∷ xs)) "/"
unfolding path_join
path_join-part_texts p ps xs h =
    let plain = all_parts-IsPlain ((p, ps) ∷ xs) h in
    rw
      (
        drop_empty-part_texts ((p, ps) ∷ xs) h,
        join-part_texts p ps xs,
        filled p (ps <> all_parts xs) plain,
        clean-join p (ps <> all_parts xs) plain,
      )
      refl
