-- ===== src/Base/StrSet.antt =====
-- Python's `set` of texts, as a list: the program never depends on the order of a set.
use py_fdc3_desktop_agent.Base.Tests.{if◌then◌else◌}
use py_fdc3_desktop_agent.Base.Lists.{contains}
use Prim.Native.String.{String}
use mathlib.Core.Path.{◌≡◌}
use mathlib.Core.Bool.{false, ◌||◌}
use mathlib.Core.List.{List, [], ◌∷◌}
use native.Mathlib.Omega.{arith}
use text.Mathlib.Text.{◌==◌}
use text.Mathlib.TextEquality.{eq_iff}

-- `s.add(a)`
unfoldable pub add : List String → String → List String
add s a = if contains a s then s else a ∷ s

-- `s.discard(a)`
unfoldable pub discard : List String → String → List String
discard [] a = []
discard (x ∷ s) a = let rest = discard s a in if x == a then rest else x ∷ rest

pub contains-add :
    (s : List String) (a b : String) → contains b (add s a) ≡ (a == b || contains b s)
unfolding add
contains-add s a b = ground (arith, eq_iff a b)

pub contains-discard :
    (s : List String) (a b : String)
    → contains b (discard s a) ≡ (if a == b then false else contains b s)
unfolding discard
contains-discard [] a b = ground arith
contains-discard (x ∷ s) a b =
    ground (arith, contains-discard s a b, eq_iff x a, eq_iff x b, eq_iff a b)

pub ruleset set_laws = (contains-add, contains-discard)
