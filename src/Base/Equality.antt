-- ===== src/Base/Equality.antt =====
-- Python's `==` on values: an equality that decides, one instance for each type.
use Prim.Native.String.{String}
use mathlib.Core.Path.{◌≡◌, refl}
use mathlib.Core.Logic.{◌↔◌}
use mathlib.Core.Bool.{Bool, true, false}
use mathlib.Core.List.{List}
use mathlib.Core.Option.{Option}
use native.Mathlib.Omega.{arith}
use text.Mathlib.Text.{◌==◌ as str_eq}
use text.Mathlib.TextEquality.{eq_iff}

pub record Eq {ℓ} (A : Type ℓ) : Type ℓ where
  pub dec : Discrete A

abbrev pub to_bool {ℓ} : {P : Type ℓ} → Dec P → Bool
to_bool (yes _) = true
to_bool (no _) = false

infix 50 ◌==◌
abbrev pub ◌==◌ {ℓ} : {A : Type ℓ} ⦃e : Eq A⦄ → A → A → Bool
◌==◌ ⦃e⦄ a b = to_bool (e.dec a b)

of_test {ℓ} : {P : Type ℓ} (b : Bool) → (b ≡ true) ↔ P → Dec P
of_test true h = yes (h.0 refl)
of_test false h = no (λ p. absurd (cc (h.1 p)))

unfoldable pub string_dec : Discrete String
unfolding of_test
string_dec a b = of_test (str_eq a b) (eq_iff a b)

unfoldable pub bool_dec : Discrete Bool
bool_dec = hlevel

unfoldable pub list_dec {ℓ} : {A : Type ℓ} → Discrete A → Discrete (List A)
list_dec d = hlevel d

unfoldable pub option_dec {ℓ} : {A : Type ℓ} → Discrete A → Discrete (Option A)
option_dec d = hlevel d

instance abbrev pub string_eq : Eq String
string_eq = record { dec = string_dec }

instance abbrev pub list_eq {ℓ} : {A : Type ℓ} → ⦃e : Eq A⦄ → Eq (List A)
list_eq ⦃e⦄ = record { dec = list_dec e.dec }

instance abbrev pub option_eq {ℓ} : {A : Type ℓ} → ⦃e : Eq A⦄ → Eq (Option A)
option_eq ⦃e⦄ = record { dec = option_dec e.dec }

pub ==_iff {ℓ} : {A : Type ℓ} ⦃e : Eq A⦄ (a b : A) → ((a == b) ≡ true) ↔ (a ≡ b)
==_iff ⦃e⦄ a b = ground arith
