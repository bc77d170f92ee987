-- ===== src/Base/Dict.antt =====
-- Python's `dict` with text keys: the entries in insertion order. Assigning to a key that is there
-- keeps its place; a new key goes to the end.
use py_fdc3_desktop_agent.Base.Tests.{if◌then◌else◌, is_some}
use Prim.Native.String.{String}
use mathlib.Core.Path.{◌≡◌, refl}
use mathlib.Core.Bool.{Bool}
use mathlib.Core.List.{List, [], ◌∷◌, map}
use mathlib.Core.Option
use mathlib.Core.Option.{Option, none, some}
use native.Mathlib.Omega.{arith}
use text.Mathlib.Text.{◌==◌}
use text.Mathlib.TextEquality.{eq_iff}

abbrev pub Dict {ℓ} : Type ℓ → Type ℓ
Dict V = List (String × V)

module _ {ℓ} {V : Type ℓ} where
  -- `d.get(k)`
  unfoldable pub get : Dict V → String → Option V
  get [] k = none
  get ((j, v) ∷ d) k = if j == k then some v else get d k

  -- `d[k] = v`
  unfoldable pub put : Dict V → String → V → Dict V
  put [] k v = (k, v) ∷ []
  put ((j, w) ∷ d) k v = if j == k then (j, v) ∷ d else (j, w) ∷ put d k v

  -- `d.pop(k, None)`, and `del d[k]` for a `k` that is there
  unfoldable pub remove : Dict V → String → Dict V
  remove [] k = []
  remove ((j, w) ∷ d) k = let rest = remove d k in if j == k then rest else (j, w) ∷ rest

  -- `k in d`
  unfoldable pub has : Dict V → String → Bool
  unfolding get
  has d k = is_some (get d k)

  -- `f` changes the object under `k`, which stays where it is
  unfoldable pub modify : Dict V → String → (V → V) → Dict V
  modify [] k f = []
  modify ((j, w) ∷ d) k f = if j == k then (j, f w) ∷ d else (j, w) ∷ modify d k f

  -- `d.values()`, `d.keys()`
  unfoldable pub values : Dict V → List V
  values = map (λ e. e.1)

  unfoldable pub keys : Dict V → List String
  keys = map (λ e. e.0)

  pub get-put :
      (d : Dict V) (k j : String) (v : V) → get (put d k v) j ≡ (if k == j then some v else get d j)
  unfolding get put
  get-put [] k j v = refl
  get-put ((i, w) ∷ d) k j v = ground (arith, get-put d k j v, eq_iff i k, eq_iff i j, eq_iff k j)

  pub get-remove :
      (d : Dict V) (k j : String) → get (remove d k) j ≡ (if k == j then none else get d j)
  unfolding get remove
  get-remove [] k j = ground arith
  get-remove ((i, w) ∷ d) k j = ground (arith, get-remove d k j, eq_iff i k, eq_iff i j, eq_iff k j)

module _ {ℓ} {V : Type ℓ} where
  pub get-modify :
      (d : Dict V) (k j : String) (f : V → V)
      → get (modify d k f) j ≡ (if k == j then Option.map f (get d j) else get d j)
  unfolding get modify
  get-modify [] k j f = ground arith
  get-modify ((i, w) ∷ d) k j f =
      ground (arith, get-modify d k j f, eq_iff i k, eq_iff i j, eq_iff k j)

  -- Every key stands once, as the program's dicts have it.
  abbrev pub Distinct : Dict V → Type ℓ
  Distinct [] = Unit
  Distinct ((k, v) ∷ d) = (get d k ≡ none) × Distinct d

  pub put-Distinct : (d : Dict V) (k : String) (v : V) → Distinct d → Distinct (put d k v)
  unfolding get put
  put-Distinct [] k v h = (refl, tt)
  put-Distinct ((i, w) ∷ d) k v h =
      ground (arith, put-Distinct d k v h.1, get-put d k i v, eq_iff i k, eq_iff k i)

  pub remove-Distinct : (d : Dict V) (k : String) → Distinct d → Distinct (remove d k)
  unfolding get remove
  remove-Distinct [] k h = tt
  remove-Distinct ((i, w) ∷ d) k h =
      ground (arith, remove-Distinct d k h.1, get-remove d k i, eq_iff i k, eq_iff k i)

module _ {ℓ} {V : Type ℓ} where
  pub remove-remove : (d : Dict V) (k : String) → remove (remove d k) k ≡ remove d k
  unfolding remove
  remove-remove [] k = refl
  remove-remove ((j, e) ∷ d) k = ground (arith, remove-remove d k)

pub ruleset dict_laws = (get-put, get-remove, get-modify)
