-- ===== src/Prelude/Text/Order.antt =====
-- Go's `<` on strings: by code points, as by the bytes of their UTF-8.
use Prim.Native.Char.{Char, code}
use text.Mathlib.TextEquality.{Char-path}
use Prim.Native.String.{String, [], ◌∷◌}
use mathlib.Core.Path.{◌≡◌, refl}
use mathlib.Core.Bool.{Bool, true, false}
use native.Mathlib.Omega.{arith}
use mantl_api.Prelude.Tests.{ltb, eqb, if◌then◌else◌}
use mantl_api.Prelude.Sort.{IsOrder}

-- `s < t`
unfoldable pub less : String → String → Bool
less [] [] = false
less [] (d ∷ t) = true
less (c ∷ s) [] = false
less (c ∷ s) (d ∷ t) =
    let rest = less s t in
    if ltb (code c) (code d) then true else if eqb (code c) (code d) then rest else false

less-asymm : (s t : String) → less s t ≡ true → less t s ≡ false
unfolding less
less-asymm [] [] h = refl
less-asymm [] (d ∷ t) h = refl
less-asymm (c ∷ s) [] h = cc
less-asymm (c ∷ s) (d ∷ t) h = ground (arith, less-asymm s t)

less_trans : (s t u : String) → less t s ≡ false → less u t ≡ false → less u s ≡ false
unfolding less
less_trans [] [] u h k = k
less_trans [] (d ∷ t) [] h k = refl
less_trans [] (d ∷ t) (e ∷ u) h k = refl
less_trans (c ∷ s) [] u h k = cc
less_trans (c ∷ s) (d ∷ t) [] h k = cc
less_trans (c ∷ s) (d ∷ t) (e ∷ u) h k = ground (arith, less_trans s t u)

pub less-IsOrder : IsOrder less
less-IsOrder = record { asymm = less-asymm; trans = less_trans }

heads_equal :
    (c d : Char) (rest rest' : Bool)
    → (if ltb (code c) (code d) then true else if eqb (code c) (code d) then rest else false)
      ≡ false
    → (if ltb (code d) (code c) then true else if eqb (code d) (code c) then rest' else false)
      ≡ false
    → (code c ≡ code d) × (rest ≡ false) × (rest' ≡ false)
heads_equal c d rest rest' h k = ground (arith, h, k)

-- Texts of which neither is less are the same.
pub less_antisymm : (s t : String) → less s t ≡ false → less t s ≡ false → s ≡ t
unfolding less
less_antisymm [] [] h k = refl
less_antisymm [] (d ∷ t) h k = cc
less_antisymm (c ∷ s) [] h k = cc
less_antisymm (c ∷ s) (d ∷ t) h k =
    let (e, m, n) = heads_equal c d (less s t) (less t s) h k in
    rw (Char-path c d e, less_antisymm s t m n) refl
