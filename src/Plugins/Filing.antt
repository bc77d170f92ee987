-- ===== src/Plugins/Filing.antt =====
-- plugins/interfaces.py: what the loops of `register` and `unregister` make of an intent's list.
use py_fdc3_desktop_agent.Base.{
  ℕ, zero, suc, ◌≤◌, String, ◌≡◌, refl, ap, ◌∙◌, sym, inl, inr, not, Option, none, some, List, [],
  ◌∷◌, ◌++◌, arith, ◌==◌, eq_iff, if◌then◌else◌, Bool-cases,
}
use py_fdc3_desktop_agent.Base.Int.{ℤ}
use py_fdc3_desktop_agent.Base.Lists.{contains, count, erase}
use py_fdc3_desktop_agent.Base.Dict.{Dict, get, put, get-put, get-remove}
use py_fdc3_desktop_agent.Plugins.{
  list_or_empty, without, keep_list, drop_from, unfile, place, sort, file_under,
}
use py_fdc3_desktop_agent.Plugins.Order.{sort-sort, filter-sort}

abbrev pub repeat : ℕ → String → List String
repeat zero p = []
repeat (suc n) p = p ∷ repeat n p

-- A list of plugins as the registry's dict holds it: an empty one is not there.
abbrev pub entry : List String → Option (List String)
entry [] = none
entry (p ∷ ps) = some (p ∷ ps)

pub list-entry : (ps : List String) → list_or_empty (entry ps) ≡ ps
list-entry [] = refl
list-entry (p ∷ ps) = refl

entry-kept :
    (d : Dict (List String)) (intent k : String) (ps : List String)
    → get (keep_list d intent ps) k ≡ (if intent == k then entry ps else get d k)
entry-kept d intent k [] = get-remove d intent k
entry-kept d intent k (p ∷ ps) = get-put d intent k (p ∷ ps)

append_assoc : (xs ys zs : List String) → (xs ++ ys) ++ zs ≡ xs ++ (ys ++ zs)
append_assoc [] ys zs = refl
append_assoc (x ∷ xs) ys zs = ap (λ l. x ∷ l) (append_assoc xs ys zs)

append-nothing : (xs : List String) → xs ++ [] ≡ xs
append-nothing [] = refl
append-nothing (x ∷ xs) = ap (λ l. x ∷ l) (append-nothing xs)

without-without : (p : String) (ps : List String) → without p (without p ps) ≡ without p ps
without-without p [] = refl
without-without p (q ∷ ps) = ground (arith, without-without p ps)

without-append :
    (p : String) (xs ys : List String) → without p (xs ++ ys) ≡ without p xs ++ without p ys
without-append p [] ys = refl
without-append p (x ∷ xs) ys = ground (arith, without-append p xs ys)

without-repeat :
    (p q : String) (n : ℕ) → without p (repeat n q) ≡ (if q == p then [] else repeat n q)
without-repeat p q zero = ground arith
without-repeat p q (suc n) = ground (arith, without-repeat p q n)

module _ (handled_intents : String → List String) (priority : String → ℤ) where
  abbrev sorted : List String → List String
  sorted = sort handled_intents priority

  -- The plugins that handle an intent, in the order of their registration; one that names an intent
  -- twice stands twice.
  abbrev pub handlers : List String → String → List String
  handlers [] intent = []
  handlers (p ∷ ps) intent = repeat (count intent (handled_intents p)) p ++ handlers ps intent

  pub handlers-append :
      (ps : List String) (p intent : String)
      → handlers (ps ++ p ∷ []) intent
        ≡ handlers ps intent ++ repeat (count intent (handled_intents p)) p
  handlers-append [] p intent = append-nothing (repeat (count intent (handled_intents p)) p)
  handlers-append (q ∷ ps) p intent = rw (handlers-append ps p intent) (
      sym (
        append_assoc (repeat (count intent (handled_intents q)) q) (handlers ps intent)
          (repeat (count intent (handled_intents p)) p)))

  entry-place :
      (p : String) (qs : List String)
      → some (place handled_intents priority p qs) ≡ entry (place handled_intents priority p qs)
  entry-place p [] = refl
  entry-place p (q ∷ qs) = ground arith

  entry-sort :
      (ps : List String) (p : String) → some (sorted (ps ++ p ∷ [])) ≡ entry (sorted (ps ++ p ∷ []))
  unfolding sort
  entry-sort [] p = refl
  entry-sort (q ∷ ps) p = entry-place q (sorted (ps ++ p ∷ []))

  -- The entry after one turn of the loop of `register`.
  filed_once :
      (d : Dict (List String)) (p intent : String) (ps : List String)
      → get d intent ≡ entry (sorted ps)
      → some (sorted (list_or_empty (get d intent) ++ p ∷ [])) ≡ entry (sorted (ps ++ p ∷ []))
  filed_once d p intent ps e =
      rw (e, list-entry (sorted ps), sort-sort handled_intents priority ps p) (entry-sort ps p)

  -- The entry of an intent after the loop of `register`.
  pub filed :
      (is : List String) (d : Dict (List String)) (p intent : String) (ps : List String)
      → get d intent ≡ entry (sorted ps)
      → get (file_under handled_intents priority d p is) intent
        ≡ entry (sorted (ps ++ repeat (count intent is) p))
  unfolding file_under
  filed [] d p intent ps e = e ∙ ap (λ l. entry (sorted l)) (sym (append-nothing ps))
  filed (i ∷ is) d p intent ps e =
      let d' = put d i (sorted (list_or_empty (get d i) ++ p ∷ [])) in
      elim (Bool-cases (i == intent)) [
        | inl f ↦ rw f (
            filed is d' p intent (ps ++ p ∷ []) (
              get-put d i intent (sorted (list_or_empty (get d i) ++ p ∷ []))
              ∙ rw (f, (eq_iff i intent).0 f) (filed_once d p intent ps e))
            ∙ ap (λ l. entry (sorted l)) (append_assoc ps (p ∷ []) (repeat (count intent is) p)))
        | inr f ↦ rw f (
            filed is d' p intent ps
              (get-put d i intent (sorted (list_or_empty (get d i) ++ p ∷ [])) ∙ rw f e))
      ]

  dropped :
      (d : Dict (List String)) (i p k : String) (o : Option (List String))
      → get d i ≡ o
      → get (drop_from d i p o) k
        ≡ (if i == k then entry (without p (list_or_empty o)) else get d k)
  dropped d i p k none e = ground (arith, e, eq_iff i k)
  dropped d i p k (some qs) e = entry-kept d i k (without p qs)

  -- The entry after one turn of the loop of `unregister`.
  dropped_once :
      (d : Dict (List String)) (p intent : String) (ps : List String)
      → get d intent ≡ entry (sorted ps)
      → entry (without p (list_or_empty (get d intent))) ≡ entry (sorted (without p ps))
  dropped_once d p intent ps e =
      rw (e, list-entry (sorted ps), filter-sort handled_intents priority (λ q. not (q == p)) ps)
        refl

  -- The entry of an intent after the loop of `unregister`.
  pub unfiled :
      (is : List String) (d : Dict (List String)) (p intent : String) (ps : List String)
      → get d intent ≡ entry (sorted ps)
      → get (unfile d p is) intent
        ≡ entry (sorted (if contains intent is then without p ps else ps))
  unfolding unfile
  unfiled [] d p intent ps e = e
  unfiled (i ∷ is) d p intent ps e =
      let d' = drop_from d i p (get d i) in
      elim (Bool-cases (i == intent)) [
        | inl f ↦ rw f (
            unfiled is d' p intent (without p ps) (
              dropped d i p intent (get d i) refl
              ∙ rw (f, (eq_iff i intent).0 f) (dropped_once d p intent ps e))
            ∙ ground (arith, without-without p ps))
        | inr f ↦ rw f (unfiled is d' p intent ps (dropped d i p intent (get d i) refl ∙ rw f e))
      ]

  -- A plugin that is not there, or does not handle the intent, is not among its handlers.
  without-absent :
      (ps : List String) (p intent : String)
      → count p ps ≡ 0
      → without p (handlers ps intent) ≡ handlers ps intent
  without-absent [] p intent h = refl
  without-absent (q ∷ ps) p intent h = ground (
    arith,
    h,
    without-append p (repeat (count intent (handled_intents q)) q) (handlers ps intent),
    without-repeat p q (count intent (handled_intents q)),
    without-absent ps p intent,
  )

  pub without-unhandled :
      (ps : List String) (p intent : String)
      → count intent (handled_intents p) ≡ 0
      → without p (handlers ps intent) ≡ handlers ps intent
  without-unhandled [] p intent h = refl
  without-unhandled (q ∷ ps) p intent h =
      without-append p (repeat (count intent (handled_intents q)) q) (handlers ps intent)
      ∙ rw (without-repeat p q (count intent (handled_intents q)), without-unhandled ps p intent h)
          (elim (Bool-cases (q == p)) [
            | inl f ↦ rw (f, (eq_iff q p).0 f, h) refl
            | inr f ↦ rw f refl
          ])

  -- Taking a plugin out of the list takes it out of the handlers of every intent.
  pub handlers-erase :
      (ps : List String) (p intent : String)
      → count p ps ≤ 1
      → handlers (erase p ps) intent ≡ without p (handlers ps intent)
  handlers-erase [] p intent h = refl
  handlers-erase (q ∷ ps) p intent h = elim (Bool-cases (q == p)) [
    | inl f ↦
        rw
          (
            f,
            without-append p (repeat (count intent (handled_intents q)) q) (handlers ps intent),
            without-repeat p q (count intent (handled_intents q)),
            f,
          )
          (sym (without-absent ps p intent (ground (arith, h, f))))
    | inr f ↦
        rw
          (
            f,
            without-append p (repeat (count intent (handled_intents q)) q) (handlers ps intent),
            without-repeat p q (count intent (handled_intents q)),
            f,
          )
          (ap (λ l. repeat (count intent (handled_intents q)) q ++ l)
            (handlers-erase ps p intent (ground (arith, h, f))))
  ]
