-- ===== src/Dacp/Finding/Sorting.antt =====
-- handlers/dacp/intent.py: the sorted elements of a set are its elements.
use py_fdc3_desktop_agent.Base.{String, ◌≡◌, refl, List, [], ◌∷◌, arith}
use py_fdc3_desktop_agent.Base.Lists.{contains}
use py_fdc3_desktop_agent.Dacp.Finding.{insert, sorted}

contains-insert : (a s : String) (ts : List String) → contains a (insert s ts) ≡ contains a (s ∷ ts)
unfolding insert
contains-insert a s [] = refl
contains-insert a s (t ∷ ts) = ground (arith, contains-insert a s ts)

pub contains-sorted : (a : String) (ss : List String) → contains a (sorted ss) ≡ contains a ss
unfolding sorted
contains-sorted a [] = refl
contains-sorted a (s ∷ ss) = ground (arith, contains-insert a s (sorted ss), contains-sorted a ss)
