-- ===== src/Main/Settings/Secrets.antt =====
-- Which settings the secrets of Vault replace.
use mathlib.Core.Option.{get_or}
use mantl_api.Prelude.{
  String, ◌≡◌, refl, ap, ◌≢◌, ◌==◌, Bool, false, ◌||◌, Option, some, List, [], ◌∷◌, if◌then◌else◌,
}
use mantl_api.Prelude.Outcome.{Result, ok, err, panic}
use mantl_api.Prelude.Exec.{Exec}
use mantl_api.Prelude.Exec.Keeps.{Keeps, lift-Keeps, attempt-Keeps}
use mantl_api.Json.{Fields, get, as_string}
use mantl_api.Main.Settings.{Viper, Secret, Vault, ask, fatal}

-- A setting that is set has its new value, and no other has. The settings of the program are in small
-- letters, so that the case of a letter, which the package does not tell apart, plays no part.
pub record Sets {W N : Type 0} (viper : Viper W N) : Type 0 where
  pub sets :
      (k v j : String) (w : W)
      → viper.get_string (viper.set k v w) j ≡ (if k == j then v else viper.get_string w j)

-- Calls of Vault change no setting.
pub record KeepsSettings {W N : Type 0} (viper : Viper W N) (vault : Vault W N) : Type 0 where
  pub environment : Keeps viper.get_string vault.read_environment
  pub clients : Keeps viper.get_string vault.new_client
  pub unwraps : (wrapped : String) → Keeps viper.get_string (vault.unwrap wrapped)
  pub reads : (token path : String) → Keeps viper.get_string (vault.read token path)

abbrev pub is_among : String → List String → Bool
is_among j [] = false
is_among j (name ∷ names) = name == j || is_among j names

-- the value of a setting beside secrets
abbrev pub with_secrets : {N : Type 0} → Fields N → List String → String → String → String
with_secrets secrets names j old =
    if is_among j names then get_or (as_string (get j secrets)) old else old

module _ {W A : Type 0} where
  pub fatal-Keeps : {V : Type 0} (view : W → V) (m : Exec W A) → Keeps view m → Keeps view (fatal m)
  fatal-Keeps view m h =
      attempt-Keeps view h (λ a. lift-Keeps view (ok a)) (λ e. lift-Keeps view panic)

  pub ask-Keeps : {V : Type 0} (view : W → V) (f : W → A) → Keeps view (ask f)
  ask-Keeps view f = record { same = λ w. refl }

  pub fatal-eq-ok : (m : Exec W A) {a : A} (w w' : W) → fatal m w ≡ (ok a, w') → m w ≡ (ok a, w')
  fatal-eq-ok m w w' h = go (m w) h
    where
      go : {a : A} (z : Result A × W) → fatal (λ _. z) w ≡ (ok a, w') → z ≡ (ok a, w')
      go (ok a, w1) h = h
      go (err e, w1) h = cc (ap (λ z. z.0) h)
      go (panic, w1) h = cc (ap (λ z. z.0) h)

module _ {W N : Type 0} (viper : Viper W N) (vault : Vault W N) (faithful : Sets viper)
    (keeps : KeepsSettings viper vault) where
  abbrev settings : W → String → String
  settings = viper.get_string

  module _ (j : String) (n : j ≢ "vault-token") where
    abbrev setting : W → String
    setting w = settings w j

  -- What the secret of the program in Vault is.
  abbrev pub IsRead : String → Secret N → Type 0
  IsRead token s = (w : W) × (w' : W) × (vault.read token "secret/mantl-api" w ≡ (ok (some s), w'))
