-- ===== src/Base/Lists.antt =====
-- Lists filtered and searched by Boolean tests, and how often a text stands in a list.
use py_fdc3_desktop_agent.Base.Tests.{if◌then◌else◌}
use Prim.Native.Nat.{ℕ, suc, ◌+◌, ◌-◌, ◌≤◌}
use Prim.Native.String.{String}
use mathlib.Core.Path.{◌≡◌, refl}
use mathlib.Core.Bool.{Bool, true, false, ◌||◌}
use mathlib.Core.List.{List, [], ◌∷◌, ◌++◌}
use native.Mathlib.Omega.{arith}
use text.Mathlib.Text.{◌==◌}
use text.Mathlib.TextEquality.{eq_iff}

module _ {ℓ} {A : Type ℓ} where
  abbrev pub length : List A → ℕ
  length [] = 0
  length (x ∷ xs) = suc (length xs)

  -- `not xs`
  abbrev pub is_empty : List A → Bool
  is_empty [] = true
  is_empty (x ∷ xs) = false

  -- `[x for x in xs if p(x)]`
  abbrev pub filter : (A → Bool) → List A → List A
  filter p [] = []
  filter p (x ∷ xs) = if p x then x ∷ filter p xs else filter p xs

  -- `any(p(x) for x in xs)`
  abbrev pub any : (A → Bool) → List A → Bool
  any p [] = false
  any p (x ∷ xs) = p x || any p xs

  abbrev pub All {κ} : (A → Type κ) → List A → Type κ
  All P [] = Unit
  All P (x ∷ xs) = P x × All P xs

-- `a in xs`
abbrev pub contains : String → List String → Bool
contains a [] = false
contains a (x ∷ xs) = x == a || contains a xs

abbrev pub count : String → List String → ℕ
count a [] = 0
count a (x ∷ xs) = if x == a then suc (count a xs) else count a xs

-- `xs.remove(a)`, for an `a` that is in the list: the first occurrence goes
abbrev pub erase : String → List String → List String
erase a [] = []
erase a (x ∷ xs) = if x == a then xs else x ∷ erase a xs

pub contains-count : (a : String) (xs : List String) → contains a xs ≡ true → 1 ≤ count a xs
contains-count a [] h = ground arith
contains-count a (x ∷ xs) h = ground (arith, contains-count a xs)

pub count-contains : (a : String) (xs : List String) → 1 ≤ count a xs → contains a xs ≡ true
count-contains a [] h = ground arith
count-contains a (x ∷ xs) h = ground (arith, count-contains a xs)

pub not_contains-count : (a : String) (xs : List String) → contains a xs ≡ false → count a xs ≡ 0
not_contains-count a [] h = ground arith
not_contains-count a (x ∷ xs) h = ground (arith, not_contains-count a xs)

pub count-append : (a : String) (xs ys : List String) → count a (xs ++ ys) ≡ count a xs + count a ys
count-append a [] ys = omega arith
count-append a (x ∷ xs) ys = ground (arith, count-append a xs ys)

pub count-erase :
    (a b : String) (xs : List String)
    → count b (erase a xs) ≡ (if a == b then count b xs - 1 else count b xs)
count-erase a b [] = ground arith
count-erase a b (x ∷ xs) = ground (arith, count-erase a b xs, eq_iff x a, eq_iff x b, eq_iff a b)

pub contains-append :
    (a : String) (xs ys : List String) → contains a (xs ++ ys) ≡ (contains a xs || contains a ys)
contains-append a [] ys = refl
contains-append a (x ∷ xs) ys = ground (arith, contains-append a xs ys)
