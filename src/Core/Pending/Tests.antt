-- ===== src/Core/Pending/Tests.antt =====
-- Examples of the pending intents: two requests, one of them answered from another thread.
use py_fdc3_desktop_agent.Base.{String, ◌≡◌, refl, some, none}
use py_fdc3_desktop_agent.Base.Dict.{get, put}
use py_fdc3_desktop_agent.Core.Pending.{
  Pending, returned, no_pending, created, resolve_pending_intent, run_scheduled,
}
use py_fdc3_desktop_agent.Core.Pending.Settling.{resolve-run}

-- The loop 1 runs the coroutine that waits for the request.
abbrev asked : Pending String
asked = (created no_pending "r1" 1 none).0

resolve-run_example :
    (run_scheduled (resolve_pending_intent asked "r1" (some "ok") none (some 2))).outcomes 0
    ≡ some (returned (some "ok"))
unfolding get put
resolve-run_example = resolve-run asked "r1" 0 1 (some "ok") none (some 2) refl refl refl
