-- ===== src/Base/Tests.antt =====
-- Boolean tests, the conditional, and case splits that keep their equation.
use Prim.Native.Nat.{ℕ, compare, Ordering}
use Prim.Native.String.{String, ◌++◌ as text_append}
use mathlib.Core.Path.{◌≡◌, refl}
use mathlib.Core.Logic.{◌⊎◌, inl, inr}
use mathlib.Core.Bool.{Bool, true, false, not, ◌||◌}
use mathlib.Core.Option.{Option, none, some}
use native.Mathlib.Omega.{arith}
use text.Mathlib.Text.{◌==◌}
use text.Mathlib.TextEquality.{eq_iff}

infix 1 if◌then◌else◌
abbrev pub if◌then◌else◌ {ℓ} : {A : Type ℓ} → Bool → A → A → A
if true then x else y = x
if false then x else y = y

abbrev pub ltb : ℕ → ℕ → Bool
ltb a b = elim (compare a b) [ Ordering.lt ↦ true | _ ↦ false ]

-- `==` of numbers
abbrev pub same : ℕ → ℕ → Bool
same a b = not (ltb a b || ltb b a)

abbrev pub leb : ℕ → ℕ → Bool
leb a b = elim (compare a b) [ Ordering.gt ↦ false | _ ↦ true ]

abbrev pub is_some {ℓ} : {A : Type ℓ} → Option A → Bool
is_some none = false
is_some (some a) = true

-- `s + t`
abbrev pub concat : String → String → String
concat s t = text_append s t

-- The truth value that Python gives a text, and an optional text.
abbrev pub truthy : String → Bool
truthy s = not (s == "")

abbrev pub opt_truthy : Option String → Bool
opt_truthy none = false
opt_truthy (some s) = truthy s

-- `o or t`
abbrev pub text_or : Option String → String → String
text_or none t = t
text_or (some s) t = if truthy s then s else t

-- Python's `==` of an optional text and a text.
abbrev pub opt_eq : Option String → String → Bool
opt_eq none t = false
opt_eq (some s) t = s == t

pub opt_eq_iff : (o : Option String) (t : String) → opt_eq o t ≡ true → o ≡ some t
opt_eq_iff none t h = cc
opt_eq_iff (some s) t h = ground (arith, eq_iff s t)

pub Bool-cases : (b : Bool) → (b ≡ true) ⊎ (b ≡ false)
Bool-cases true = inl refl
Bool-cases false = inr refl

pub Option-cases {ℓ} : {A : Type ℓ} (o : Option A) → (o ≡ none) ⊎ ((a : A) × (o ≡ some a))
Option-cases none = inl refl
Option-cases (some a) = inr (a, refl)
