-- ===== src/Core/External/Tests.antt =====
-- Examples of external_registry.py: two instances with handlers for an intent.
use py_fdc3_desktop_agent.Base.{refl, none, [], ◌∷◌}
use py_fdc3_desktop_agent.Base.Int.{pos}
use py_fdc3_desktop_agent.Base.Dict.{get, put}
use py_fdc3_desktop_agent.Core.External.{ExternalRegistry, no_handlers, register}
use py_fdc3_desktop_agent.Core.External.Disconnect.{Reach, start, next, registered}

abbrev two : ExternalRegistry
two =
    (register (register no_handlers "h1" "ann" "charts" ("ViewChart" ∷ []) (pos 1) none).0 "h2"
      "bob" "news" ("ViewNews" ∷ "ViewChart" ∷ []) (pos 5) none).0

reached : Reach two
unfolding register get put
reached =
    next (next start (registered "h1" "ann" "charts" ("ViewChart" ∷ []) (pos 1) none refl))
      (registered "h2" "bob" "news" ("ViewNews" ∷ "ViewChart" ∷ []) (pos 5) none refl)
