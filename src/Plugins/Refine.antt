-- ===== src/Plugins/Refine.antt =====
-- plugins/interfaces.py: the registry beside the plain list of the plugins that are registered.
use py_fdc3_desktop_agent.Base.{
  ◌≤◌, String, ◌≡◌, refl, ap, ◌∙◌, sym, inl, inr, not, List, [], ◌∷◌, arith, eq_iff, Bool-cases,
}
use py_fdc3_desktop_agent.Base.Int.{ℤ}
use py_fdc3_desktop_agent.Base.Lists.{
  is_empty, contains, count, not_contains-count, count-append, count-erase,
}
use py_fdc3_desktop_agent.Base.Dict.{get}
use py_fdc3_desktop_agent.Plugins.{
  PluginRegistry, no_plugins, get_plugins_for_intent, has_handler_for_intent, not_empty, sort,
  register, unregister,
}
use py_fdc3_desktop_agent.Plugins.Filing.{
  entry, list-entry, handlers, handlers-append, handlers-erase, without-unhandled, filed, unfiled,
}

module _ (handled_intents : String → List String) (priority : String → ℤ) where
  abbrev sorted : List String → List String
  sorted = sort handled_intents priority

  -- The registry holds what the list of its plugins says.
  pub record Refines (r : PluginRegistry) : Type 0 where
    pub single : (p : String) → count p r.plugins ≤ 1
    pub entries :
        (intent : String)
        → get r.intent_map intent
          ≡ entry (sorted (handlers handled_intents priority r.plugins intent))

  register-Refines :
      (r : PluginRegistry) (p : String)
      → Refines r
      → Refines (register handled_intents priority r p)
  unfolding register
  register-Refines r p v = elim (Bool-cases (contains p r.plugins)) [
    | inl e ↦ rw e v
    | inr e ↦ rw e (record {
      single = λ q. ground (
        arith,
        count-append q r.plugins (p ∷ []),
        v.single q,
        not_contains-count p r.plugins e,
        eq_iff p q,
      );
      entries = λ intent.
          filed handled_intents priority (handled_intents p) r.intent_map p intent
            (handlers handled_intents priority r.plugins intent) (v.entries intent)
          ∙ ap (λ l. entry (sorted l))
              (sym (handlers-append handled_intents priority r.plugins p intent));
    })
  ]

  unregister-Refines :
      (r : PluginRegistry) (p : String)
      → Refines r
      → Refines (unregister handled_intents priority r p)
  unfolding unregister
  unregister-Refines r p v = elim (Bool-cases (contains p r.plugins)) [
    | inr e ↦ rw e v
    | inl e ↦ rw e (record {
      single = λ q. ground (arith, count-erase p q r.plugins, v.single q);
      entries = λ intent.
          unfiled handled_intents priority (handled_intents p) r.intent_map p intent
            (handlers handled_intents priority r.plugins intent) (v.entries intent)
          ∙ ap (λ l. entry (sorted l))
              (elim (Bool-cases (contains intent (handled_intents p))) [
                | inl f ↦
                    rw f (
                      sym (handlers-erase handled_intents priority r.plugins p intent (v.single p)))
                | inr f ↦ rw f (
                    sym (
                      handlers-erase handled_intents priority r.plugins p intent (v.single p)
                      ∙ without-unhandled handled_intents priority r.plugins p intent
                          (not_contains-count intent (handled_intents p) f)))
              ]);
    })
  ]

  -- The calls of `register` and `unregister`, and the registries that they lead to.
  pub data Reach : PluginRegistry → Type 0 where
    start : Reach no_plugins
    registered :
        {r : PluginRegistry}
        → Reach r
        → (p : String) → Reach (register handled_intents priority r p)
    unregistered :
        {r : PluginRegistry}
        → Reach r
        → (p : String) → Reach (unregister handled_intents priority r p)

  Reach-Refines : {r : PluginRegistry} → Reach r → Refines r
  unfolding get sort
  Reach-Refines start = record { single = λ p. omega arith; entries = λ intent. refl }
  Reach-Refines (registered {r} h p) = register-Refines r p (Reach-Refines h)
  Reach-Refines (unregistered {r} h p) = unregister-Refines r p (Reach-Refines h)

  not_empty-entry : (ps : List String) → not_empty (entry ps) ≡ not (is_empty ps)
  not_empty-entry [] = refl
  not_empty-entry (p ∷ ps) = refl

  -- In every registry that is reached from the empty one by registering and unregistering plugins,
  -- the plugins for an intent are the registered ones that name it, once for each time that they
  -- name it, sorted by falling priority and, at the same priority, in the order in which they were
  -- registered; and there is a handler for the intent exactly if that list is not empty.
  pub plugins_for_intent :
      {r : PluginRegistry} (intent : String)
      → Reach r
      → (get_plugins_for_intent r intent
          ≡ sort handled_intents priority (handlers handled_intents priority r.plugins intent))
        × (has_handler_for_intent r intent
            ≡ not (
                is_empty (
                  sort handled_intents priority
                    (handlers handled_intents priority r.plugins intent))))
  unfolding get_plugins_for_intent has_handler_for_intent
  plugins_for_intent {r} intent h = (
    rw ((Reach-Refines h).entries intent)
        (list-entry (sorted (handlers handled_intents priority r.plugins intent))),
    rw ((Reach-Refines h).entries intent)
        (not_empty-entry (sorted (handlers handled_intents priority r.plugins intent))),
  )
