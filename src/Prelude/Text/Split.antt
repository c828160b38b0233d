-- ===== src/Prelude/Text/Split.antt =====
-- Taking a text apart at a separator, and joining what was taken apart.
use Prim.Native.Nat.{ℕ}
use Prim.Native.Char.{Char, code}
use Prim.Native.String.{String, [], ◌∷◌, ◌++◌}
use mathlib.Core.Path.{◌≡◌, refl, ap, ◌∙◌}
use mathlib.Core.Logic.{inl, inr, ◌≢◌}
use mathlib.Core.Bool.{false}
use mathlib.Core.List as L
use mathlib.Core.List.{List}
use mathlib.Core.Option.{some, get_or}
use native.Mathlib.Omega.{arith}
use text.Mathlib.TextLemmas.{cons-append, nil-append, concat-ne-nil, tail-eq_of_cons-eq}
use text.Mathlib.Text.{◌==◌}
use text.Mathlib.TextEquality.{eq_iff}
use mantl_api.Prelude.Tests.{eqb, Bool-cases}
use mantl_api.Prelude.Lists.{All}
use mantl_api.Prelude.Text.{prepend, split, join, has_code, strip_suffix, trim_suffix}

-- The test for equality fails on different texts.
pub ne_test : (s t : String) → s ≢ t → (s == t) ≡ false
ne_test s t n = elim (Bool-cases (s == t)) [ inl e ↦ absurd (n ((eq_iff s t).0 e)) | inr e ↦ e ]

-- a text without the separator
abbrev pub Lacks : ℕ → String → Type 0
Lacks sep s = has_code sep s ≡ false

pub has_code-cons :
    (sep : ℕ) (c : Char) (s : String) → Lacks sep (c ∷ s) → (eqb (code c) sep ≡ false) × Lacks sep s
unfolding has_code
has_code-cons sep c s h = ground (arith, h)

-- A text without the separator is one part.
pub split-Lacks : (sep : ℕ) (s : String) → Lacks sep s → split s sep ≡ L.◌∷◌ s L.[]
unfolding split prepend
split-Lacks sep [] h = refl
split-Lacks sep (c ∷ s) h = let (e, l) = has_code-cons sep c s h in rw (e, split-Lacks sep s l) refl

-- What stands before the first separator is the first part.
pub split-append :
    (sep : ℕ) (s t : String) (c : Char)
    → Lacks sep s
    → code c ≡ sep
    → split (s ++ (c ∷ t)) sep ≡ L.◌∷◌ s (split t sep)
unfolding split prepend
split-append sep [] t c h e = rw (nil-append (c ∷ t)) (ground (arith, e))
split-append sep (d ∷ s) t c h e =
    let (q, l) = has_code-cons sep d s h in
    rw (cons-append d s (c ∷ t), q, split-append sep s t c l e) refl

pub slash-append : (s : String) → "/" ++ s ≡ "/" ∷ s
slash-append s = cons-append "/" "" s ∙ ap (λ t. "/" ∷ t) (nil-append s)

-- Joined parts without a slash are taken apart again.
pub split-join :
    (w : String) (ws : List String)
    → All (Lacks b'/') (L.◌∷◌ w ws)
    → split (join (L.◌∷◌ w ws) "/") b'/' ≡ L.◌∷◌ w ws
unfolding join
split-join w L.[] h = split-Lacks b'/' w h.0
split-join w (L.◌∷◌ v ws) h =
    ap (λ t. split (w ++ t) b'/') (slash-append (join (L.◌∷◌ v ws) "/"))
    ∙ split-append b'/' w (join (L.◌∷◌ v ws) "/") "/" h.0 refl
    ∙ ap (λ l. L.◌∷◌ w l) (split-join v ws h.1)

longer : (c : Char) (t : String) → (c ∷ (t ++ "/") == "/") ≡ false
longer c t = ne_test (c ∷ (t ++ "/")) "/" (λ e. concat-ne-nil "/" t (tail-eq_of_cons-eq e))

strip_suffix-slash : (t : String) → strip_suffix "/" (t ++ "/") ≡ some t
unfolding strip_suffix
strip_suffix-slash [] = refl
strip_suffix-slash (c ∷ t) = rw (cons-append c t "/", longer c t, strip_suffix-slash t) refl

-- The text in front of a slash at the end.
pub trim_suffix-slash : (s : String) → trim_suffix (s ++ "/") "/" ≡ s
unfolding trim_suffix
trim_suffix-slash s = ap (λ o. get_or o (s ++ "/")) (strip_suffix-slash s)
