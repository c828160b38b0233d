-- ===== src/Prelude/Int/Digits.antt =====
-- A printed number is read back, and what is read is a Go `int`.
use Prim.Native.Nat.{ℕ, zero, suc, ◌+◌, ◌-◌, ◌*◌, ◌/◌, ◌%◌, ◌≤◌, ◌<◌}
use Prim.Native.Char.{Char, code}
use Prim.Native.String.{String, [], ◌∷◌, ◌++◌, char_at}
use mathlib.Core.Path.{◌≡◌, refl, sym, ap, ◌∙◌, subst}
use mathlib.Core.Logic.{inl, inr}
use mathlib.Core.Bool.{false}
use mathlib.Core.Option.{Option, none, some}
use native.Mathlib.Omega.{arith}
use text.Mathlib.TextLemmas.{cons-append, nil-append}
use mantl_api.Prelude.Tests.{ltb, leb, eqb, if◌then◌else◌, Bool-cases}
use mantl_api.Prelude.Text.{has_code}
use mantl_api.Prelude.Text.Split.{Lacks}
use mantl_api.Prelude.Slash.Plain.{IsPlain, IsPlain-cons}
use mantl_api.Prelude.Int.{
  ℤ, pos, negsuc, IsInt, max_int, show_from, show_nat, show, digits, unsigned, positive, negative,
  atoi,
}

some-injective : {a b : ℤ} → Path (Option ℤ) (some a) (some b) → a ≡ b
some-injective h = cc

-- a character that is the digit `d`
abbrev IsDigit : Char → ℕ → Type 0
IsDigit c d = (code c ≡ b'0' + d) × (d < 10)

below_ten {ℓ} :
    (P : ℕ → Type ℓ)
    → P 0
    → P 1
    → P 2
    → P 3
    → P 4
    → P 5
    → P 6
    → P 7
    → P 8
    → P 9
    → (d : ℕ) → d < 10
    → P d
below_ten P a b c d e f g h i j zero l = a
below_ten P a b c d e f g h i j (suc zero) l = b
below_ten P a b c d e f g h i j (suc (suc zero)) l = c
below_ten P a b c d e f g h i j (suc (suc (suc zero))) l = d
below_ten P a b c d e f g h i j (suc (suc (suc (suc zero)))) l = e
below_ten P a b c d e f g h i j (suc (suc (suc (suc (suc zero))))) l = f
below_ten P a b c d e f g h i j (suc (suc (suc (suc (suc (suc zero)))))) l = g
below_ten P a b c d e f g h i j (suc (suc (suc (suc (suc (suc (suc zero))))))) l = h
below_ten P a b c d e f g h i j (suc (suc (suc (suc (suc (suc (suc (suc zero)))))))) l = i
below_ten P a b c d e f g h i j (suc (suc (suc (suc (suc (suc (suc (suc (suc zero))))))))) l = j
below_ten P a b c d e f g h i j (suc (suc (suc (suc (suc (suc (suc (suc (suc (suc n)))))))))) l =
    absurd (omega arith)

digit_char : (d : ℕ) → d < 10 → code (char_at "0123456789" d) ≡ b'0' + d
digit_char =
    below_ten (λ d. code (char_at "0123456789" d) ≡ b'0' + d) refl refl refl refl refl refl refl
      refl refl refl

-- the last digit of a number
last_digit : ℕ → Char
last_digit n = char_at "0123456789" (n % 10)

last_digit-IsDigit : (n : ℕ) → IsDigit (last_digit n) (n % 10)
unfolding last_digit
last_digit-IsDigit n = (digit_char (n % 10) (omega arith), omega arith)

digits-IsDigit :
    (m d : ℕ) (c : Char) (s : String) → IsDigit c d → digits m (c ∷ s) ≡ digits (m * 10 + d) s
unfolding digits
digits-IsDigit m d c s (e, l) = ground (arith, (ap (λ k. digits (m * 10 + k) s) (minus d)))
  where
    minus : (n : ℕ) → b'0' + n - b'0' ≡ n
    minus n = omega arith

digits-last_digit :
    (m n : ℕ) (s : String) → m * 10 + n % 10 ≡ n → digits m (last_digit n ∷ s) ≡ digits n s
digits-last_digit m n s e =
    digits-IsDigit m (n % 10) (last_digit n) s (last_digit-IsDigit n) ∙ ap (λ k. digits k s) e

-- Reading what the loop has printed so far: the digits of `n` in front of `acc`.
digits-show_from : (f n : ℕ) (acc : String) → n < f → digits 0 (show_from f n acc) ≡ digits n acc
unfolding show_from last_digit
digits-show_from zero n acc h = absurd (omega arith)
digits-show_from (suc f) n acc h = elim (Bool-cases (ltb n 10)) [
  | inl e ↦ rw e (digits-last_digit 0 n acc (ground (arith, e)))
  | inr e ↦ rw e (
      digits-show_from f (n / 10) (last_digit n ∷ acc) (ground (arith, e))
      ∙ digits-last_digit (n / 10) n acc (omega arith))
]

digits-show_nat : (n : ℕ) → digits 0 (show_nat n) ≡ some n
unfolding show_nat digits
digits-show_nat n = digits-show_from (n + 1) n "" (omega arith)

-- a text of decimal digits
abbrev pub IsDigits : String → Type 0
IsDigits [] = Unit
IsDigits (c ∷ s) = ((d : ℕ) × IsDigit c d) × IsDigits s

show_from-IsDigits : (f n : ℕ) (acc : String) → IsDigits acc → IsDigits (show_from f n acc)
unfolding show_from last_digit
show_from-IsDigits zero n acc h = h
show_from-IsDigits (suc f) n acc h =
    let more = show_from-IsDigits f (n / 10) (last_digit n ∷ acc) ((_, last_digit-IsDigit n), h) in
    elim (Bool-cases (ltb n 10)) [ inl e ↦ rw e ((_, last_digit-IsDigit n), h) | inr e ↦ rw e more ]

show_from-starts :
    (f n : ℕ) (acc : String) → 0 < f → (c : Char) × (s : String) × (show_from f n acc ≡ c ∷ s)
unfolding show_from last_digit
show_from-starts zero n acc h = absurd (omega arith)
show_from-starts (suc zero) n acc h = elim (Bool-cases (ltb n 10)) [
  | inl e ↦ rw e (_, _, refl)
  | inr e ↦ rw e (_, _, refl)
]
show_from-starts (suc (suc f)) n acc h = elim (Bool-cases (ltb n 10)) [
  | inl e ↦ rw e (_, _, refl)
  | inr e ↦ rw e (show_from-starts (suc f) (n / 10) (last_digit n ∷ acc) (omega arith))
]

-- A printed number is a digit with digits behind it.
pub show_nat-IsDigits :
    (n : ℕ) → (c : Char) × (s : String) × (show_nat n ≡ c ∷ s) × IsDigits (c ∷ s)
unfolding show_nat
show_nat-IsDigits n =
    let (c, s, e) = show_from-starts (n + 1) n "" (omega arith) in
    (c, s, e, subst IsDigits e (show_from-IsDigits (n + 1) n "" tt))

unsigned-show_nat : (n : ℕ) → unsigned (show_nat n) ≡ some n
unfolding unsigned
unsigned-show_nat n =
    let (c, s, e, d) = show_nat-IsDigits n in
    rw e (subst (λ t. digits 0 t ≡ some n) e (digits-show_nat n))

no_sign : (d : ℕ) → d < 10 → (eqb (b'0' + d) b'-' ≡ false) × (eqb (b'0' + d) b'+' ≡ false)
no_sign d h = (ground arith, ground arith)

-- a text that starts with a digit has no sign
atoi-unsigned :
    (c : Char) (s : String) (d : ℕ) → IsDigit c d → atoi (c ∷ s) ≡ positive (unsigned (c ∷ s))
unfolding atoi
atoi-unsigned c s d (e, l) =
    rw (ap (λ k. eqb k b'-') e, (no_sign d l).0, ap (λ k. eqb k b'+') e, (no_sign d l).1) refl

atoi-show_nat : (n : ℕ) → atoi (show_nat n) ≡ positive (some n)
atoi-show_nat n =
    let (c, s, e, d) = show_nat-IsDigits n in
    ap atoi e
    ∙ atoi-unsigned c s d.0.0 d.0.1
    ∙ ap (λ t. positive (unsigned t)) (sym e)
    ∙ ap positive (unsigned-show_nat n)

negative-suc : (n m : ℕ) → n ≤ max_int → suc n ≡ m → negative (some m) ≡ some (negsuc n)
unfolding negative
negative-suc n m h e = rw (← e) (ground arith)

minus-append : (s : String) → "-" ++ s ≡ "-" ∷ s
minus-append s = cons-append "-" "" s ∙ ap (λ t. "-" ∷ t) (nil-append s)

atoi-minus : (s : String) → atoi ("-" ++ s) ≡ negative (unsigned s)
unfolding atoi
atoi-minus s = ap atoi (minus-append s)

IsDigits-Lacks : (s : String) → IsDigits s → Lacks b'/' s
unfolding has_code
IsDigits-Lacks [] h = refl
IsDigits-Lacks (c ∷ s) (((d, (e, l)), h)) =
    let rest = IsDigits-Lacks s h in ground (arith, e, l, rest)

-- A printed number is an element of a path that stands for itself.
pub show-IsPlain : (i : ℤ) → IsPlain (show i)
unfolding show
show-IsPlain (pos n) =
    let (c, s, e, d) = show_nat-IsDigits n in
    rw e (
      IsPlain-cons c s (ground (arith, d.0.1.0, d.0.1.1)) (ground (arith, d.0.1.0, d.0.1.1))
        (IsDigits-Lacks s d.1))
show-IsPlain (negsuc n) =
    let (c, s, e, d) = show_nat-IsDigits (n + 1) in
    let l = subst (Lacks b'/') (sym e) (IsDigits-Lacks (c ∷ s) d) in
    rw (minus-append (show_nat (n + 1))) (IsPlain-cons "-" (show_nat (n + 1)) refl refl l)

-- `strconv.Atoi` reads every `int` that `%d` has printed.
pub atoi-show : (i : ℤ) → IsInt i → atoi (show i) ≡ some i
unfolding show positive
atoi-show (pos n) h = atoi-show_nat n ∙ ground arith
atoi-show (negsuc n) h =
    atoi-minus (show_nat (n + 1))
    ∙ ap negative (unsigned-show_nat (n + 1))
    ∙ negative-suc n (n + 1) h (omega arith)

positive-IsInt : (o : Option ℕ) (i : ℤ) → positive o ≡ some i → IsInt i
unfolding positive
positive-IsInt none i h = cc
positive-IsInt (some n) i h = elim (Bool-cases (leb n max_int)) [
  | inl e ↦ subst IsInt (some-injective (rw e at h)) (ground (arith, e))
  | inr e ↦ cc (rw e at h)
]

negative-IsInt : (o : Option ℕ) (i : ℤ) → negative o ≡ some i → IsInt i
unfolding negative
negative-IsInt none i h = cc
negative-IsInt (some zero) i h = subst IsInt (some-injective h) (omega arith)
negative-IsInt (some (suc n)) i h = elim (Bool-cases (leb n max_int)) [
  | inl e ↦ subst IsInt (some-injective (rw e at h)) (ground (arith, e))
  | inr e ↦ cc (rw e at h)
]

-- What `strconv.Atoi` reads is an `int`.
pub atoi-IsInt : (s : String) (i : ℤ) → atoi s ≡ some i → IsInt i
unfolding atoi
atoi-IsInt [] i h = cc
atoi-IsInt (c ∷ s) i h = elim (Bool-cases (eqb (code c) b'-')) [
  | inl e ↦ negative-IsInt (unsigned s) i (rw e at h)
  | inr e ↦ positive-IsInt (unsigned (if eqb (code c) b'+' then s else c ∷ s)) i (rw e at h)
]
