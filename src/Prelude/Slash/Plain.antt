-- ===== src/Prelude/Slash/Plain.antt =====
-- `path.Join` of elements that it has nothing to clean in.
use Prim.Native.Char.{Char, code}
use Prim.Native.String as S
use Prim.Native.String.{String, ◌++◌}
use mathlib.Core.Path.{◌≡◌, refl, ap, subst}
use mathlib.Core.Bool.{Bool, false}
use mathlib.Core.List.{List, [], ◌∷◌, reverse_aux, reverse_aux-reverse_aux-nil}
use native.Mathlib.Omega.{arith}
use text.Mathlib.Text.{◌==◌}
use text.Mathlib.TextLemmas.{cons-append, append_assoc, cons-ne-nil, head-eq_of_cons-eq}
use mantl_api.Prelude.Tests.{eqb}
use mantl_api.Prelude.Lists.{All}
use mantl_api.Prelude.Text.{join, has_prefix, strip_prefix, has_code}
use mantl_api.Prelude.Text.Split.{ne_test, Lacks, has_code-cons, split-join}
use mantl_api.Prelude.Slash.{resolve, clean, drop_empty, path_join}

-- an element of a path that names something below
pub record IsPlain (p : String) : Type 0 where
  pub nonempty : (p == "") ≡ false
  pub ne_dot : (p == ".") ≡ false
  pub ne_dots : (p == "..") ≡ false
  pub lacks : Lacks b'/' p

pub IsPlain-cons :
    (c : Char) (s : String)
    → eqb (code c) b'/' ≡ false
    → eqb (code c) b'.' ≡ false
    → Lacks b'/' s
    → IsPlain (S.◌∷◌ c s)
unfolding has_code
IsPlain-cons c s e n l = record {
  nonempty = ne_test (S.◌∷◌ c s) "" (cons-ne-nil c s);
  ne_dot = ne_test (S.◌∷◌ c s) "." (λ h. no_dot (head-eq_of_cons-eq h));
  ne_dots = ne_test (S.◌∷◌ c s) ".." (λ h. no_dot (head-eq_of_cons-eq h));
  lacks = rw e l;
}
  where
    no_dot : c ≡ "." → ⊥
    no_dot h = cc (subst (λ d. eqb (code d) b'.' ≡ false) h n)

pub Lacks-All : (ps : List String) → All IsPlain ps → All (Lacks b'/') ps
Lacks-All [] h = tt
Lacks-All (p ∷ ps) h = (h.0.lacks, Lacks-All ps h.1)

resolve-IsPlain :
    (rooted : Bool) (ps kept : List String)
    → All IsPlain ps
    → resolve rooted kept ps ≡ reverse_aux ps kept
unfolding resolve
resolve-IsPlain rooted [] kept h = refl
resolve-IsPlain rooted (p ∷ ps) kept h =
    rw (h.0.nonempty, h.0.ne_dot, h.0.ne_dots, resolve-IsPlain rooted ps (p ∷ kept) h.1) refl

-- what joined elements start with
pub starts :
    (p : String) (ps : List String)
    → IsPlain p
    → (c : Char) × (t : String) × (join (p ∷ ps) "/" ≡ S.◌∷◌ c t) × (eqb (code c) b'/' ≡ false)
unfolding join
starts S.[] ps h = cc h.nonempty
starts (S.◌∷◌ c p) [] h = (c, p, refl, (has_code-cons b'/' c p h.lacks).0)
starts (S.◌∷◌ c p) (q ∷ ps) h =
    (c, _, cons-append c p ("/" ++ join (q ∷ ps) "/"), (has_code-cons b'/' c p h.lacks).0)

relative : (c : Char) (t : String) → eqb (code c) b'/' ≡ false → has_prefix (S.◌∷◌ c t) "/" ≡ false
unfolding has_prefix strip_prefix
relative c t e = ground (arith, e)

pub nonempty : (c : Char) (t : String) → (S.◌∷◌ c t == "") ≡ false
nonempty c t = ne_test (S.◌∷◌ c t) "" (cons-ne-nil c t)

-- Joined elements are clean.
pub clean-join :
    (p : String) (ps : List String)
    → All IsPlain (p ∷ ps)
    → clean (join (p ∷ ps) "/") ≡ join (p ∷ ps) "/"
unfolding clean
clean-join p ps h =
    let (c, t, e, n) = starts p ps h.0 in
    rw
      (
        ap (λ s. has_prefix s "/") e,
        relative c t n,
        split-join p ps (Lacks-All (p ∷ ps) h),
        resolve-IsPlain false (p ∷ ps) [] h,
        reverse_aux-reverse_aux-nil (p ∷ ps) [],
        ap (λ s. s == "") e,
        nonempty c t,
      )
      refl

drop_empty-IsPlain : (ps : List String) → All IsPlain ps → drop_empty ps ≡ ps
unfolding drop_empty
drop_empty-IsPlain [] h = refl
drop_empty-IsPlain (p ∷ ps) h = rw (h.0.nonempty, drop_empty-IsPlain ps h.1) refl

-- The join of such elements puts slashes between them.
pub path_join-join :
    (p : String) (ps : List String) → All IsPlain (p ∷ ps) → path_join (p ∷ ps) ≡ join (p ∷ ps) "/"
unfolding path_join
path_join-join p ps h =
    let (c, t, e, n) = starts p ps h.0 in
    rw (drop_empty-IsPlain (p ∷ ps) h, ap (λ s. s == "") e, nonempty c t, clean-join p ps h) refl

-- A slash inside an element joins as one between elements does.
pub path_join-slash :
    (a b p : String)
    → (a == "") ≡ false
    → (b == "") ≡ false
    → (a ++ "/" ++ b == "") ≡ false
    → (p == "") ≡ false
    → path_join ((a ++ "/" ++ b) ∷ p ∷ []) ≡ path_join (a ∷ b ∷ p ∷ [])
unfolding path_join drop_empty
path_join-slash a b p ha hb hab hp =
    rw (hab, hp, ha, hb, append_assoc a ("/" ++ b) ("/" ++ p), append_assoc "/" b ("/" ++ p)) refl
