-- ===== src/Core/External/Filing.antt =====
-- core/external_registry.py: filing a handler under its intents, and taking it out.
use py_fdc3_desktop_agent.Base.{
  String, ◌≡◌, refl, sym, ap, subst, inl, inr, Bool, true, ◌&&◌, ◌||◌, none, some, List, [], ◌∷◌,
  ◌++◌, arith, ◌==◌, eq_iff, if◌then◌else◌, Bool-cases,
}
use py_fdc3_desktop_agent.Base.Lists.{is_empty, any, All, contains}
use py_fdc3_desktop_agent.Base.Dict.{Dict, get, put, get-put, get-remove}
use py_fdc3_desktop_agent.Core.External.{
  ExternalHandler, list_or_empty, sort, file_under, without, keep_list, unfile,
}
use py_fdc3_desktop_agent.Core.External.Order.{
  IsSorted, All-sort, All-append, sort-IsSorted, any-sort, any-append,
}

-- The handlers under an intent.
abbrev pub listed : Dict (List ExternalHandler) → String → List ExternalHandler
listed d intent = list_or_empty (get d intent)

pub any-file_under :
    (p : ExternalHandler → Bool) (d : Dict (List ExternalHandler)) (h : ExternalHandler)
    (is : List String) (i : String)
    → any p (listed (file_under d h is) i) ≡ (any p (listed d i) || contains i is && p h)
unfolding file_under
any-file_under p d h [] i = ground arith
any-file_under p d h (j ∷ is) i = ground (
  arith,
  any-file_under p (put d j (sort (listed d j ++ h ∷ []))) h is i,
  get-put d j i (sort (listed d j ++ h ∷ [])),
  any-sort p (listed d j ++ h ∷ []),
  any-append p (listed d j) (h ∷ []),
  eq_iff j i,
)

pub All-file_under :
    (P : ExternalHandler → Type 0) (d : Dict (List ExternalHandler)) (h : ExternalHandler)
    (is : List String) (i : String)
    → All P (listed d i)
    → (contains i is ≡ true → P h)
    → All P (listed (file_under d h is) i)
unfolding file_under
All-file_under P d h [] i a p = a
All-file_under P d h (j ∷ is) i a p =
    All-file_under P (put d j (sort (listed d j ++ h ∷ []))) h is i
      (elim (Bool-cases (j == i)) [
        | inl e ↦
            rw (get-put d j i, e)
              (All-sort P (listed d j ++ h ∷ []) (
                All-append P (listed d j) (h ∷ [])
                  (subst (λ k. All P (listed d k)) (sym ((eq_iff j i).0 e)) a)
                  (p (ground arith), tt)))
        | inr e ↦ rw (get-put d j i, e) a
      ])
      (λ e. p (ground arith))

pub file_under-IsSorted :
    (d : Dict (List ExternalHandler)) (h : ExternalHandler) (is : List String)
    → ((i : String) → IsSorted (listed d i))
    → (i : String) → IsSorted (listed (file_under d h is) i)
unfolding file_under
file_under-IsSorted d h [] s i = s i
file_under-IsSorted d h (j ∷ is) s i =
    file_under-IsSorted (put d j (sort (listed d j ++ h ∷ []))) h is
      (λ k. elim (Bool-cases (j == k)) [
        | inl e ↦ rw (get-put d j k, e) (sort-IsSorted (listed d j ++ h ∷ []))
        | inr e ↦ rw (get-put d j k, e) (s k)
      ])
      i

nil_of_empty : (xs : List ExternalHandler) → is_empty xs ≡ true → xs ≡ []
nil_of_empty [] h = refl
nil_of_empty (x ∷ xs) h = cc

without-without : (u : String) (xs : List ExternalHandler) → without u (without u xs) ≡ without u xs
without-without u [] = refl
without-without u (x ∷ xs) = elim (Bool-cases (x.handler_uuid == u)) [
  | inl e ↦ rw e (without-without u xs)
  | inr e ↦ rw e (rw e (ap (◌∷◌ x) (without-without u xs)))
]

abbrev unfiled : Dict (List ExternalHandler) → String → String → Dict (List ExternalHandler)
unfiled d u j = elim (get d j) [ none ↦ d | some hs ↦ keep_list d j (without u hs) ]

listed-unfiled :
    (d : Dict (List ExternalHandler)) (u j i : String)
    → listed (unfiled d u j) i ≡ (if j == i then without u (listed d i) else listed d i)
listed-unfiled d u j i = ground (
  arith,
  get-put d j i (without u (listed d j)),
  get-remove d j i,
  nil_of_empty (without u (listed d j)),
  eq_iff j i,
)

-- the list of each intent after `unfile`
pub listed-unfile :
    (d : Dict (List ExternalHandler)) (u : String) (is : List String) (i : String)
    → listed (unfile d u is) i ≡ (if contains i is then without u (listed d i) else listed d i)
unfolding unfile
listed-unfile d u [] i = refl
listed-unfile d u (j ∷ is) i = ground (
  arith,
  listed-unfile (unfiled d u j) u is i,
  listed-unfiled d u j i,
  without-without u (listed d i),
)
