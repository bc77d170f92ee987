-- ===== src/Core/External/Record.antt =====
-- core/external_registry.py: `handlers` and `intent_map` under `register` and `unregister`.
use py_fdc3_desktop_agent.Base.Int.{ℤ}
use py_fdc3_desktop_agent.Base.Dict.{Distinct, put-Distinct, remove-Distinct}
use py_fdc3_desktop_agent.Base.{
  String, ◌≡◌, refl, sym, inl, inr, Bool, false, not, Option, none, some, List, [], ◌∷◌, arith,
  ◌==◌, eq_iff, eq_refl, if◌then◌else◌, Bool-cases, Option-cases,
}
use py_fdc3_desktop_agent.Base.Lists.{any, All, contains}
use py_fdc3_desktop_agent.Base.Dict.{get, put, get-put, get-remove}
use py_fdc3_desktop_agent.Core.External.{
  ExternalHandler, ExternalRegistry, register, without, unregister, get_handlers_for_intent,
}
use py_fdc3_desktop_agent.Core.External.Order.{IsSorted, filter-IsSorted}
use py_fdc3_desktop_agent.Core.External.Filing.{
  listed, any-file_under, All-file_under, file_under-IsSorted, listed-unfile,
}

-- Each handler stands under its own identifier; the list of an intent holds registered handlers
-- only, by falling priority; and a handler stands in the list of an intent exactly if it is
-- registered and the intent is among its own.
pub record IsFiled (r : ExternalRegistry) : Type 0 where
  pub keyed : (u : String) (h : ExternalHandler) → get r.handlers u ≡ some h → h.handler_uuid ≡ u
  pub distinct : Distinct r.handlers
  pub backed :
      (i : String) → All (λ h. get r.handlers h.handler_uuid ≡ some h) (listed r.intent_map i)
  pub filed :
      (u i : String)
      → any (λ x. x.handler_uuid == u) (listed r.intent_map i)
        ≡ elim (get r.handlers u) [ none ↦ false | some h ↦ contains i h.intents ]
  pub sorted : (i : String) → IsSorted (listed r.intent_map i)

All-map :
    (P Q : ExternalHandler → Type 0) (xs : List ExternalHandler)
    → ((x : ExternalHandler) → P x → Q x)
    → All P xs
    → All Q xs
All-map P Q [] f a = tt
All-map P Q (x ∷ xs) f a = (f x a.0, All-map P Q xs f a.1)

All-without :
    (P Q : ExternalHandler → Type 0) (u : String) (xs : List ExternalHandler)
    → ((x : ExternalHandler) → P x → (x.handler_uuid == u) ≡ false → Q x)
    → All P xs
    → All Q (without u xs)
All-without P Q u [] f a = tt
All-without P Q u (x ∷ xs) f a = elim (Bool-cases (x.handler_uuid == u)) [
  | inl e ↦ rw e (All-without P Q u xs f a.1)
  | inr e ↦ rw e (f x a.0 e, All-without P Q u xs f a.1)
]

any-without :
    (u k : String) (xs : List ExternalHandler)
    → any (λ x. x.handler_uuid == k) (without u xs)
      ≡ (if u == k then false else any (λ x. x.handler_uuid == k) xs)
any-without u k [] = ground arith
any-without u k (x ∷ xs) =
    ground (arith, any-without u k xs, eq_iff u k, eq_iff x.handler_uuid u, eq_iff x.handler_uuid k)

without_absent :
    (u : String) (xs : List ExternalHandler)
    → any (λ x. x.handler_uuid == u) xs ≡ false
    → without u xs ≡ xs
without_absent u [] h = refl
without_absent u (x ∷ xs) h = ground (arith, without_absent u xs)

pub any_of_All :
    (P : ExternalHandler → Type 0) (p : ExternalHandler → Bool) (xs : List ExternalHandler)
    → ((x : ExternalHandler) → P x → p x ≡ false)
    → All P xs
    → any p xs ≡ false
any_of_All P p [] f a = refl
any_of_All P p (x ∷ xs) f a = ground (arith, f x a.0, any_of_All P p xs f a.1)

module _ (r : ExternalRegistry) (u i handler_id : String) (intents : List String) (priority : ℤ)
    (metadata : Option String) where
  abbrev new : ExternalHandler
  new = record {
    handler_uuid = u;
    instance_uuid = i;
    handler_id = handler_id;
    intents = intents;
    priority = priority;
    metadata = metadata;
  }

  -- Registering a handler under a new identifier keeps the indices in agreement.
  pub register-IsFiled :
      get r.handlers u ≡ none
      → IsFiled r
      → IsFiled (register r u i handler_id intents priority metadata).0
  unfolding register
  register-IsFiled fresh v = record {
    keyed = λ k h e. ground (arith, get-put r.handlers u k new, e, v.keyed k h, eq_iff u k);
    distinct = put-Distinct r.handlers u new v.distinct;
    backed = λ k.
        All-file_under (λ h. get (put r.handlers u new) h.handler_uuid ≡ some h) r.intent_map new
          intents k
          (All-map (λ h. get r.handlers h.handler_uuid ≡ some h)
            (λ h. get (put r.handlers u new) h.handler_uuid ≡ some h) (listed r.intent_map k)
            (λ h e.
              ground (arith, get-put r.handlers u h.handler_uuid new, eq_iff u h.handler_uuid))
            (v.backed k))
          (λ _. ground (arith, get-put r.handlers u u new, eq_refl u));
    filed = λ k j. ground (
      arith,
      any-file_under (λ x. x.handler_uuid == k) r.intent_map new intents j,
      get-put r.handlers u k new,
      v.filed k j,
      eq_iff u k,
    );
    sorted = file_under-IsSorted r.intent_map new intents v.sorted;
  }

-- Unregistering an identifier takes its handler out of the list of every intent and changes
-- nothing else in the lists; an unknown identifier changes nothing.
pub listed-unregister :
    (r : ExternalRegistry) (u i : String)
    → IsFiled r
    → get_handlers_for_intent (unregister r u) i ≡ without u (get_handlers_for_intent r i)
unfolding unregister get_handlers_for_intent
listed-unregister r u i v = elim (Option-cases (get r.handlers u)) [
  | inl e ↦
      rw (e, unregister)
        (sym (without_absent u (listed r.intent_map i) (ground (arith, v.filed u i, e))))
  | inr (h, e) ↦
      rw (e, unregister)
        (ground (
          arith,
          listed-unfile r.intent_map u h.intents i,
          v.filed u i,
          without_absent u (listed r.intent_map i),
          e,
        ))
]

pub handlers-unregister :
    (r : ExternalRegistry) (u k : String)
    → get (unregister r u).handlers k ≡ (if u == k then none else get r.handlers k)
unfolding unregister
handlers-unregister r u k = ground (arith, get-remove r.handlers u k, eq_iff u k)

Distinct-unregister :
    (r : ExternalRegistry) (u : String) → Distinct r.handlers → Distinct (unregister r u).handlers
unfolding unregister
Distinct-unregister r u h = ground (arith, remove-Distinct r.handlers u h)

pub unregister-IsFiled : (r : ExternalRegistry) (u : String) → IsFiled r → IsFiled (unregister r u)
unregister-IsFiled r u v = record {
  keyed = λ k h e. ground (arith, handlers-unregister r u k, e, v.keyed k h);
  distinct = Distinct-unregister r u v.distinct;
  backed = λ k. rw same (
      All-without (λ h. get r.handlers h.handler_uuid ≡ some h)
        (λ h. get (unregister r u).handlers h.handler_uuid ≡ some h) u (listed r.intent_map k)
        (λ x e n. ground (
          arith,
          handlers-unregister r u x.handler_uuid,
          eq_iff u x.handler_uuid,
          eq_iff x.handler_uuid u,
        ))
        (v.backed k));
  filed = λ k j. rw same (
      ground
        (arith, any-without u k (listed r.intent_map j), v.filed k j, handlers-unregister r u k));
  sorted = λ k.
      rw same
        (filter-IsSorted (λ h. not (h.handler_uuid == u)) (listed r.intent_map k) (v.sorted k));
}
  where
    same : (k : String) → listed (unregister r u).intent_map k ≡ without u (listed r.intent_map k)
    same k = unfold get_handlers_for_intent in listed-unregister r u k v
