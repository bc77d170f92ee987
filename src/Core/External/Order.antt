-- ===== src/Core/External/Order.antt =====
-- core/external_registry.py: the stable sort by falling priority.
use py_fdc3_desktop_agent.Base.Int.{ltb_ℤ, ◌≤ℤ◌}
use py_fdc3_desktop_agent.Base.{
  ◌≡◌, refl, inl, inr, Bool, ◌||◌, List, [], ◌∷◌, ◌++◌, arith, Bool-cases,
}
use py_fdc3_desktop_agent.Base.Lists.{filter, any, All}
use py_fdc3_desktop_agent.Core.External.{ExternalHandler, place, sort}

-- Each handler's priority is at least the priority of every one behind it.
abbrev pub IsSorted : List ExternalHandler → Type 0
IsSorted [] = Unit
IsSorted (h ∷ hs) = All (λ x. x.priority ≤ℤ h.priority) hs × IsSorted hs

module _ (P : ExternalHandler → Type 0) where
  All-place :
      (h : ExternalHandler) (xs : List ExternalHandler) → P h → All P xs → All P (place h xs)
  All-place h [] p a = (p, tt)
  All-place h (x ∷ xs) p a = ground (arith, All-place h xs p a.1)

  pub All-sort : (xs : List ExternalHandler) → All P xs → All P (sort xs)
  unfolding sort
  All-sort [] a = tt
  All-sort (x ∷ xs) a = All-place x (sort xs) a.0 (All-sort xs a.1)

  pub All-append : (xs ys : List ExternalHandler) → All P xs → All P ys → All P (xs ++ ys)
  All-append [] ys a b = b
  All-append (x ∷ xs) ys a b = (a.0, All-append xs ys a.1 b)

  pub All-filter :
      (q : ExternalHandler → Bool) (xs : List ExternalHandler) → All P xs → All P (filter q xs)
  All-filter q [] a = tt
  All-filter q (x ∷ xs) a = ground (arith, All-filter q xs a.1)

lower :
    (h x : ExternalHandler) (xs : List ExternalHandler)
    → x.priority ≤ℤ h.priority
    → All (λ y. y.priority ≤ℤ x.priority) xs
    → All (λ y. y.priority ≤ℤ h.priority) xs
lower h x [] le a = tt
lower h x (y ∷ ys) le a = (omega arith, lower h x ys le a.1)

place-IsSorted :
    (h : ExternalHandler) (xs : List ExternalHandler) → IsSorted xs → IsSorted (place h xs)
place-IsSorted h [] s = (tt, tt)
place-IsSorted h (x ∷ xs) s = elim (Bool-cases (ltb_ℤ h.priority x.priority)) [
  | inl e ↦
      rw e
        (All-place (λ y. y.priority ≤ℤ x.priority) h xs (ground arith) s.0, place-IsSorted h xs s.1)
  | inr e ↦ rw e ((ground arith, lower h x xs (ground arith) s.0), s)
]

pub sort-IsSorted : (xs : List ExternalHandler) → IsSorted (sort xs)
unfolding sort
sort-IsSorted [] = tt
sort-IsSorted (x ∷ xs) = place-IsSorted x (sort xs) (sort-IsSorted xs)

pub filter-IsSorted :
    (q : ExternalHandler → Bool) (xs : List ExternalHandler) → IsSorted xs → IsSorted (filter q xs)
filter-IsSorted q [] s = tt
filter-IsSorted q (x ∷ xs) s =
    ground (arith, filter-IsSorted q xs s.1, All-filter (λ y. y.priority ≤ℤ x.priority) q xs s.0)

-- Sorting keeps the elements.
module _ (p : ExternalHandler → Bool) where
  any-place :
      (h : ExternalHandler) (xs : List ExternalHandler) → any p (place h xs) ≡ (p h || any p xs)
  any-place h [] = refl
  any-place h (x ∷ xs) = ground (arith, any-place h xs)

  pub any-sort : (xs : List ExternalHandler) → any p (sort xs) ≡ any p xs
  unfolding sort
  any-sort [] = refl
  any-sort (x ∷ xs) = ground (arith, any-place x (sort xs), any-sort xs)

  pub any-append : (xs ys : List ExternalHandler) → any p (xs ++ ys) ≡ (any p xs || any p ys)
  any-append [] ys = refl
  any-append (x ∷ xs) ys = ground (arith, any-append xs ys)
