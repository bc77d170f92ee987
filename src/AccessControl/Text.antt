-- ===== src/AccessControl/Text.antt =====
-- Text as code points, with Python's `==`, `startswith` and `endswith`.
use Prim.Native.Char.{code}
use py_fdc3_desktop_agent.Base.{
  ℕ, String, Bool, true, false, ◌&&◌, List, [], ◌∷◌, ◌++◌, ◌≡◌, refl, sym, ap, ◌∙◌, same, arith,
  if◌then◌else◌, Bool-cases, inl, inr,
}

abbrev pub Codes : Type 0
Codes = List ℕ

abbrev pub codes : String → Codes
codes String.[] = []
codes (String.◌∷◌ c s) = code c ∷ codes s

abbrev pub star : ℕ
star = 42

abbrev pub dot : ℕ
dot = 46

unfoldable pub equals : Codes → Codes → Bool
equals [] [] = true
equals [] (b ∷ t) = false
equals (a ∷ s) [] = false
equals (a ∷ s) (b ∷ t) = same a b && equals s t

unfoldable pub starts_with : Codes → Codes → Bool
starts_with s [] = true
starts_with [] (b ∷ t) = false
starts_with (a ∷ s) (b ∷ t) = same a b && starts_with s t

-- `s.endswith(t)`: `t` is what is left of `s` somewhere
unfoldable pub ends_with : Codes → Codes → Bool
unfolding equals
ends_with [] t = equals [] t
ends_with (a ∷ s) t = let rest = ends_with s t in if equals (a ∷ s) t then true else rest

-- `s[:-1]`
unfoldable pub drop_last : Codes → Codes
drop_last [] = []
drop_last (a ∷ []) = []
drop_last (a ∷ b ∷ s) = a ∷ drop_last (b ∷ s)

and-both : (x y : Bool) → (x && y) ≡ true → (x ≡ true) × (y ≡ true)
and-both true y h = (refl, h)
and-both false y h = cc

same_iff : (a b : ℕ) → same a b ≡ true → a ≡ b
same_iff a b h = ground (arith, h)

pub equals_iff : (s t : Codes) → equals s t ≡ true → s ≡ t
unfolding equals
equals_iff [] [] h = refl
equals_iff [] (b ∷ t) h = cc
equals_iff (a ∷ s) [] h = cc
equals_iff (a ∷ s) (b ∷ t) h =
    let both = and-both (same a b) (equals s t) h in cc (same_iff a b both.0, equals_iff s t both.1)

pub equals_refl : (s : Codes) → equals s s ≡ true
unfolding equals
equals_refl [] = refl
equals_refl (a ∷ s) = ground (arith, equals_refl s)

-- A text starts with `t` exactly if it is `t` and something more.
pub starts_with-append : (t s : Codes) → starts_with (t ++ s) t ≡ true
unfolding starts_with
starts_with-append [] s = refl
starts_with-append (b ∷ t) s = ground (arith, starts_with-append t s)

pub starts_with_rest : (s t : Codes) → starts_with s t ≡ true → (r : Codes) × (s ≡ t ++ r)
unfolding starts_with
starts_with_rest s [] h = (s, refl)
starts_with_rest [] (b ∷ t) h = cc
starts_with_rest (a ∷ s) (b ∷ t) h =
    let both = and-both (same a b) (starts_with s t) h in
    let (r, e) = starts_with_rest s t both.1 in (r, cc (same_iff a b both.0, e))

-- A text ends with `t` exactly if it is something and then `t`.
pub ends_with-append : (r t : Codes) → ends_with (r ++ t) t ≡ true
unfolding ends_with
ends_with-append [] [] = unfold equals in refl
ends_with-append [] (b ∷ t) = ground (arith, equals_refl (b ∷ t))
ends_with-append (a ∷ r) t = ground (arith, ends_with-append r t)

pub ends_with_front : (s t : Codes) → ends_with s t ≡ true → (r : Codes) × (s ≡ r ++ t)
unfolding ends_with
ends_with_front [] t h = ([], equals_iff [] t h)
ends_with_front (a ∷ s) t h = elim (Bool-cases (equals (a ∷ s) t)) [
  | inl e ↦ ([], equals_iff (a ∷ s) t e)
  | inr e ↦ let (r, f) = ends_with_front s t (ground (arith, e, h)) in (a ∷ r, ap (λ x. a ∷ x) f)
]

pub drop_last-append : (s : Codes) (a : ℕ) → drop_last (s ++ a ∷ []) ≡ s
unfolding drop_last
drop_last-append [] a = refl
drop_last-append (b ∷ []) a = refl
drop_last-append (b ∷ c ∷ s) a = ap (λ x. b ∷ x) (drop_last-append (c ∷ s) a)

-- A text that ends with one character is the rest and that character.
pub drop_last_lem : (s : Codes) (a : ℕ) → ends_with s (a ∷ []) ≡ true → s ≡ drop_last s ++ a ∷ []
drop_last_lem s a h =
    let (r, e) = ends_with_front s (a ∷ []) h in
    e ∙ ap (λ x. x ++ a ∷ []) (sym (ap drop_last e ∙ drop_last-append r a))
