-- ===== src/Prelude/Int.antt =====
-- Go's `int` as an integer: `strconv.Atoi` with its range, `%d`, and `<`.
pub mod Digits
use Prim.Native.Nat.{ℕ, zero, suc, ◌+◌, ◌-◌, ◌*◌, ◌/◌, ◌%◌, ◌^◌, ◌≤◌}
use Prim.Native.Char.{code}
use Prim.Native.String.{String, [], ◌∷◌, ◌++◌, char_at}
use mathlib.Core.Path.{◌≡◌, refl}
use mathlib.Core.Bool.{Bool, true, false, ◌&&◌}
use mathlib.Core.Option.{Option, none, some}
use native.Mathlib.Omega.{arith}
use mantl_api.Prelude.Tests.{ltb, leb, eqb, if◌then◌else◌}
use mantl_api.Prelude.Sort.{IsOrder}

-- `negsuc n` is -(n + 1).
pub data ℤ : Type 0 where
  pos : ℕ → ℤ
  negsuc : ℕ → ℤ

abbrev pub max_int : ℕ
max_int = 2 ^ 63 - 1

-- Go's `int` has 64 bits.
abbrev pub IsInt : ℤ → Type 0
IsInt (pos n) = n ≤ max_int
IsInt (negsuc n) = n ≤ max_int

-- `a < b`
unfoldable pub int_less : ℤ → ℤ → Bool
int_less (pos a) (pos b) = ltb a b
int_less (pos a) (negsuc b) = false
int_less (negsuc a) (pos b) = true
int_less (negsuc a) (negsuc b) = ltb b a

int_less-asymm : (a b : ℤ) → int_less a b ≡ true → int_less b a ≡ false
unfolding int_less
int_less-asymm a b h = ground arith

int_less_trans : (a b c : ℤ) → int_less b a ≡ false → int_less c b ≡ false → int_less c a ≡ false
unfolding int_less
int_less_trans a b c h k = ground arith

pub int_less-IsOrder : IsOrder int_less
int_less-IsOrder = record { asymm = int_less-asymm; trans = int_less_trans }

-- One digit for each unit of fuel; a number has no more digits than one more than its value.
unfoldable pub show_from : ℕ → ℕ → String → String
show_from zero n acc = acc
show_from (suc f) n acc =
    let acc' = char_at "0123456789" (n % 10) ∷ acc in
    let more = show_from f (n / 10) acc' in if ltb n 10 then acc' else more

unfoldable pub show_nat : ℕ → String
unfolding show_from
show_nat n = show_from (n + 1) n ""

-- `fmt.Sprintf("%d", n)`
unfoldable pub show : ℤ → String
unfolding show_nat
show (pos n) = show_nat n
show (negsuc n) = "-" ++ show_nat (n + 1)

unfoldable pub digits : ℕ → String → Option ℕ
digits n [] = some n
digits n (c ∷ s) =
    let rest = digits (n * 10 + (code c - b'0')) s in
    if leb b'0' (code c) && leb (code c) b'9' then rest else none

-- at least one digit
unfoldable pub unsigned : String → Option ℕ
unfolding digits
unsigned [] = none
unsigned (c ∷ s) = digits 0 (c ∷ s)

unfoldable pub positive : Option ℕ → Option ℤ
positive none = none
positive (some n) = if leb n max_int then some (pos n) else none

unfoldable pub negative : Option ℕ → Option ℤ
negative none = none
negative (some zero) = some (pos 0)
negative (some (suc n)) = if leb n max_int then some (negsuc n) else none

-- `strconv.Atoi`; `none` is its error, of syntax or of range.
unfoldable pub atoi : String → Option ℤ
unfolding unsigned positive negative
atoi [] = none
atoi (c ∷ s) =
    if eqb (code c) b'-'
    then negative (unsigned s)
    else positive (unsigned (if eqb (code c) b'+' then s else c ∷ s))

shown : show_nat 4050 ≡ "4050"
unfolding show_nat
shown = refl

read : atoi "-12" ≡ some (negsuc 11)
unfolding atoi
read = refl
