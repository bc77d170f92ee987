-- ===== src/Base/Json.antt =====
-- Python's values of a JSON text, and its `dict` of them: the entries in insertion order, with the
-- tests that code makes of a value. Floating-point numbers are left out.
use Prim.Native.String.{String, len, slice}
use Prim.Native.Nat.{◌-◌}
use py_fdc3_desktop_agent.Base.Tests.{if◌then◌else◌, is_some, truthy, same}
use py_fdc3_desktop_agent.Base.Int.{ℤ, pos, negsuc}
use mathlib.Core.Path.{◌≡◌, refl}
use mathlib.Core.Bool.{Bool, true, false, not}
use mathlib.Core.Option.{Option, none, some}
use native.Mathlib.Omega.{arith}
use text.Mathlib.Text.{◌==◌, find?}
use text.Mathlib.TextEquality.{eq_iff}

mutual
  pub data Json : Type 0 where
    json_null : Json
    json_bool : Bool → Json
    json_number : ℤ → Json
    json_text : String → Json
    json_list : Items → Json
    json_object : Fields → Json

  pub data Items : Type 0 where
    no_items : Items
    item : Json → Items → Items

  pub data Fields : Type 0 where
    no_fields : Fields
    field : String → Json → Fields → Fields

-- `d.get(k)`
unfoldable pub get : Fields → String → Option Json
get no_fields k = none
get (field j v d) k = if j == k then some v else get d k

-- `d[k] = v`
unfoldable pub put : Fields → String → Json → Fields
put no_fields k v = field k v no_fields
put (field j w d) k v = if j == k then field j v d else field j w (put d k v)

-- `d.pop(k, None)`
unfoldable pub remove : Fields → String → Fields
remove no_fields k = no_fields
remove (field j w d) k = let rest = remove d k in if j == k then rest else field j w rest

-- `k in d`
unfoldable pub has : Fields → String → Bool
unfolding get
has d k = is_some (get d k)

-- The truth value that Python gives a value, and `d.get(k)`.
abbrev pub holds : Json → Bool
holds json_null = false
holds (json_bool b) = b
holds (json_number (pos n)) = not (same n 0)
holds (json_number (negsuc n)) = true
holds (json_text t) = truthy t
holds (json_list no_items) = false
holds (json_list (item v xs)) = true
holds (json_object no_fields) = false
holds (json_object (field k v d)) = true

abbrev pub opt_holds : Option Json → Bool
opt_holds none = false
opt_holds (some v) = holds v

-- `v if isinstance(v, str) else None`, and the same of `dict`
abbrev pub text_of : Option Json → Option String
text_of (some (json_text t)) = some t
text_of _ = none

abbrev pub object_of : Option Json → Option Fields
object_of (some (json_object d)) = some d
object_of _ = none

-- `v or {}`, where that is a `dict`
abbrev pub object_or_empty : Option Json → Option Fields
object_or_empty v = if opt_holds v then object_of v else some no_fields

-- `t in s`, `s.endswith(t)`, and `s[: -len(t)]` of such a text
abbrev pub in_text : String → String → Bool
in_text t s = is_some (find? s t)

unfoldable pub text_ends_with : String → String → Bool
text_ends_with s t = slice s (len s - len t) (len s) == t

unfoldable pub text_front : String → String → String
text_front s t = slice s 0 (len s - len t)

pub get-put :
    (d : Fields) (k j : String) (v : Json)
    → get (put d k v) j ≡ (if k == j then some v else get d j)
unfolding get put
get-put no_fields k j v = refl
get-put (field i w d) k j v = ground (arith, get-put d k j v, eq_iff i k, eq_iff i j, eq_iff k j)

pub get-remove :
    (d : Fields) (k j : String) → get (remove d k) j ≡ (if k == j then none else get d j)
unfolding get remove
get-remove no_fields k j = ground arith
get-remove (field i w d) k j = ground (arith, get-remove d k j, eq_iff i k, eq_iff i j, eq_iff k j)
