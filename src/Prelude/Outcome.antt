-- ===== src/Prelude/Outcome.antt =====
-- What a call returns: a value, an error with its text, or a panic that unwinds the goroutine.
use Prim.Native.String.{String}
use mathlib.Core.Path.{◌≡◌, refl}
use mathlib.Core.Logic.{◌⊎◌, inl, inr}

pub data Result {ℓ} (A : Type ℓ) : Type ℓ where
  ok : A → Result A
  err : String → Result A
  panic : Result A

-- what follows a call runs on its value; an error and a panic end the chain
infixl 5 ◌>>=◌ ◌>>◌
abbrev pub ◌>>=◌ {κ ℓ} : {S : Type κ} {T : Type ℓ} → Result S → (S → Result T) → Result T
panic >>= next = panic
err why >>= next = err why
ok s >>= next = next s

abbrev pub ◌>>◌ {κ ℓ} : {S : Type κ} {T : Type ℓ} → Result S → Result T → Result T
call >> more = call >>= λ _. more

pub ok-injective {ℓ} : {A : Type ℓ} {s t : A} → ok s ≡ ok t → s ≡ t
ok-injective h = cc

-- A chain that succeeds has succeeded at its first call, and goes on from what that returned.
pub >>=-eq-ok {κ ℓ} :
    {S : Type κ} {T : Type ℓ} (call : Result S) (next : S → Result T) {t : T}
    → (call >>= next) ≡ ok t
    → (s : S) × (call ≡ ok s) × (next s ≡ ok t)
>>=-eq-ok panic next same = cc
>>=-eq-ok (err why) next same = cc
>>=-eq-ok (ok s) next same = (s, refl, same)

-- A chain that fails has failed at its first call, or goes on to one that fails.
pub >>=-eq-err {κ ℓ} :
    {S : Type κ} {T : Type ℓ} (call : Result S) (next : S → Result T) {why : String}
    → (call >>= next) ≡ err why
    → (call ≡ err why) ⊎ ((s : S) × (call ≡ ok s) × (next s ≡ err why))
>>=-eq-err panic next same = cc
>>=-eq-err (err why) next same = inl (cc)
>>=-eq-err (ok s) next same = inr (s, refl, same)
