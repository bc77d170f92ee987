-- ===== src/Core/Intents/Tests.antt =====
-- Examples of intent_resolver.py: an application that is connected and listens for an intent.
use py_fdc3_desktop_agent.Base.{
  ◌≡◌, refl, sym, ap, ◌∙◌, Bool, true, false, if◌then◌else◌, ◌==◌, eq_iff, arith, some, none, [],
  ◌∷◌, truthy,
}
use py_fdc3_desktop_agent.Base.Dict.{get}
use py_fdc3_desktop_agent.Core.Apps.{AppInstance}
use py_fdc3_desktop_agent.Core.Listeners.{empty_store, add_intent_listener}
use py_fdc3_desktop_agent.Core.Intents.{IntentResolution, IntentResolver}
use py_fdc3_desktop_agent.Core.Intents.Delivery.{IsKeyed}

abbrev chart : AppInstance
chart = record { app_id = "chart"; instance_id = "c1"; instance_uuid = "u1"; connected = true }

abbrev charts : IntentResolver
charts = record {
  listener_store = (add_intent_listener empty_store "k1" "u1" "ViewChart").0;
  app_registry = record { instances = ("u1", chart) ∷ []; connection_events = [] };
}

abbrev to_chart : IntentResolution
to_chart = record {
  source = record { app_id = "chart"; instance_id = some "c1" };
  intent = "ViewChart";
}

found :
    (b : Bool) (a : AppInstance)
    → (if b then some chart else none) ≡ some a
    → (b ≡ true) × (chart ≡ a)
found true a h = (refl, cc)
found false a h = cc

keyed : IsKeyed charts.app_registry
unfolding get
keyed i a h =
    let at = found ("u1" == i) a h in
    (
      ap (λ b. b.instance_uuid) (sym at.1) ∙ ground (arith, eq_iff "u1" i, at.0),
      ap (λ b. truthy b.instance_id) (sym at.1),
    )
