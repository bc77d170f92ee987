-- ===== src/Plugins/Tests.antt =====
-- Examples of plugins/interfaces.py: three plugins, two of which handle the same intent.
use py_fdc3_desktop_agent.Base.{◌≡◌, true, String, List, [], ◌∷◌, if◌then◌else◌, ◌==◌}
use py_fdc3_desktop_agent.Base.Int.{ℤ, pos}
use py_fdc3_desktop_agent.Plugins.{
  PluginRegistry, no_plugins, register, get_plugins_for_intent, has_handler_for_intent, sort,
}
use py_fdc3_desktop_agent.Plugins.Refine.{Reach, start, registered, plugins_for_intent}

abbrev names : String → List String
names p = if p == "mail" then "StartEmail" ∷ [] else "ViewChart" ∷ "ViewQuote" ∷ []

abbrev ranks : String → ℤ
ranks p = if p == "fast" then pos 5 else pos 0

abbrev three : PluginRegistry
three =
    register names ranks (register names ranks (register names ranks no_plugins "slow") "mail")
      "fast"

reached : Reach names ranks three
reached = registered (registered (registered start "slow") "mail") "fast"

plugins_for_intent_example :
    (get_plugins_for_intent three "ViewChart" ≡ "fast" ∷ "slow" ∷ [])
    × (has_handler_for_intent three "ViewChart" ≡ true)
unfolding register sort
plugins_for_intent_example = plugins_for_intent names ranks "ViewChart" reached
