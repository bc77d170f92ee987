-- ===== src/Plugins/Order.antt =====
-- plugins/interfaces.py: the stable sort by falling priority.
use py_fdc3_desktop_agent.Base.{
  String, ◌≡◌, refl, ◌∙◌, inl, inr, Bool, List, [], ◌∷◌, ◌++◌, arith, if◌then◌else◌, Bool-cases,
}
use py_fdc3_desktop_agent.Base.Int.{ℤ, ltb_ℤ, ◌≤ℤ◌}
use py_fdc3_desktop_agent.Base.Lists.{filter, All}
use py_fdc3_desktop_agent.Plugins.{place, sort}

module _ (handled_intents : String → List String) (priority : String → ℤ) where
  abbrev put_in : String → List String → List String
  put_in = place handled_intents priority

  abbrev sorted : List String → List String
  unfolding sort
  sorted = sort handled_intents priority

  -- The priority of each is at least that of every one behind it.
  abbrev pub IsSorted : List String → Type 0
  IsSorted [] = Unit
  IsSorted (p ∷ ps) = All (λ q. priority q ≤ℤ priority p) ps × IsSorted ps

  lower :
      (p q : String) (ps : List String)
      → priority q ≤ℤ priority p
      → All (λ x. priority x ≤ℤ priority q) ps
      → All (λ x. priority x ≤ℤ priority p) ps
  lower p q [] le a = tt
  lower p q (x ∷ ps) le a = (omega arith, lower p q ps le a.1)

  All-place :
      (z p : String) (ps : List String)
      → priority p ≤ℤ priority z
      → All (λ x. priority x ≤ℤ priority z) ps
      → All (λ x. priority x ≤ℤ priority z) (put_in p ps)
  All-place z p [] le a = (le, tt)
  All-place z p (q ∷ ps) le a = ground (arith, All-place z p ps le a.1, le, a)

  place-IsSorted : (p : String) (ps : List String) → IsSorted ps → IsSorted (put_in p ps)
  place-IsSorted p [] s = (tt, tt)
  place-IsSorted p (q ∷ ps) s = elim (Bool-cases (ltb_ℤ (priority p) (priority q))) [
    | inl e ↦ rw e (All-place q p ps (ground arith) s.0, place-IsSorted p ps s.1)
    | inr e ↦ rw e ((ground arith, lower p q ps (ground arith) s.0), s)
  ]

  pub sort-IsSorted : (ps : List String) → IsSorted (sort handled_intents priority ps)
  unfolding sort
  sort-IsSorted [] = tt
  sort-IsSorted (p ∷ ps) = place-IsSorted p (sorted ps) (sort-IsSorted ps)

  -- One that is at least as high as all goes to the front.
  place-front :
      (p : String) (ps : List String)
      → All (λ x. priority x ≤ℤ priority p) ps
      → put_in p ps ≡ p ∷ ps
  place-front p [] a = refl
  place-front p (q ∷ ps) a = ground arith

  sort-sorted : (ps : List String) → IsSorted ps → sort handled_intents priority ps ≡ ps
  unfolding sort
  sort-sorted [] s = refl
  sort-sorted (p ∷ ps) s = rw (sort-sorted ps s.1) (place-front p ps s.0)

  -- Behind all that are at least as high.
  abbrev put_last : String → List String → List String
  put_last z [] = z ∷ []
  put_last z (q ∷ qs) = if ltb_ℤ (priority q) (priority z) then z ∷ q ∷ qs else q ∷ put_last z qs

  place-put_last :
      (p z : String) (ps : List String) → put_in p (put_last z ps) ≡ put_last z (put_in p ps)
  place-put_last p z [] = refl
  place-put_last p z (q ∷ qs) = ground (arith, place-put_last p z qs)

  sort-last :
      (ps : List String) (z : String)
      → sort handled_intents priority (ps ++ z ∷ []) ≡ put_last z (sort handled_intents priority ps)
  unfolding sort
  sort-last [] z = refl
  sort-last (p ∷ ps) z = rw (sort-last ps z) (place-put_last p z (sorted ps))

  -- Sorting a sorted list with one more is sorting all.
  pub sort-sort :
      (ps : List String) (z : String)
      → sort handled_intents priority (sort handled_intents priority ps ++ z ∷ [])
        ≡ sort handled_intents priority (ps ++ z ∷ [])
  unfolding sorted sort
  sort-sort ps z =
      rw (sort-last (sorted ps) z, sort-last ps z, sort-sorted (sorted ps) (sort-IsSorted ps)) refl

  All-filter :
      (z : String) (t : String → Bool) (ps : List String)
      → All (λ x. priority x ≤ℤ priority z) ps
      → All (λ x. priority x ≤ℤ priority z) (filter t ps)
  All-filter z t [] a = tt
  All-filter z t (p ∷ ps) a = ground (arith, All-filter z t ps a.1, a)

  filter-place :
      (t : String → Bool) (p : String) (ps : List String)
      → IsSorted ps
      → filter t (put_in p ps) ≡ (if t p then put_in p (filter t ps) else filter t ps)
  filter-place t p [] s = ground arith
  filter-place t p (q ∷ qs) s = elim (Bool-cases (ltb_ℤ (priority p) (priority q))) [
    | inl e ↦ rw e (ground (arith, filter-place t p qs s.1, e))
    | inr e ↦ rw e (
        ground (
          arith,
          e,
          place-front p (filter t qs) (All-filter p t qs (lower p q qs (ground arith) s.0)),
        ))
  ]

  pub filter-sort :
      (t : String → Bool) (ps : List String)
      → filter t (sort handled_intents priority ps) ≡ sort handled_intents priority (filter t ps)
  unfolding sort
  filter-sort t [] = refl
  filter-sort t (p ∷ ps) =
      filter-place t p (sorted ps) (sort-IsSorted ps) ∙ ground (arith, filter-sort t ps)
