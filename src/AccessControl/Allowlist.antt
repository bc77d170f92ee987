-- ===== src/AccessControl/Allowlist.antt =====
-- access_control/__init__.py: what an allowlist allows, said without the tests of the code.
use py_fdc3_desktop_agent.Base.{
  ℕ, Bool, true, false, ◌||◌, Option, none, some, List, [], ◌∷◌, ◌++◌, ◌≡◌, refl, sym, ap, subst,
  ◌∙◌, ◌↔◌, ◌⊎◌, inl, inr, arith, if◌then◌else◌, Bool-cases,
}
use py_fdc3_desktop_agent.Base.Lists.{any}
use py_fdc3_desktop_agent.AccessControl.Text.{
  Codes, equals, starts_with, ends_with, drop_last, star, dot, equals_iff, equals_refl,
  starts_with-append, starts_with_rest, ends_with-append, ends_with_front, drop_last-append,
  drop_last_lem,
}
use py_fdc3_desktop_agent.AccessControl.{
  AccessDecision, deny, drop_two, match_origin, decide, match_any, evaluate_domain, evaluate_access,
  check_access, validate_connection,
}

-- The domains that a pattern denotes: `*.s` is s and everything that ends with .s; any other
-- pattern `p*` is everything that begins with p; a pattern of neither kind is itself.
pub data Denotes : Codes → Codes → Type 0 where
  itself : (s : Codes) → Denotes (star ∷ dot ∷ s) s
  subdomain : (r s : Codes) → Denotes (star ∷ dot ∷ s) (r ++ dot ∷ s)
  extension :
      (p r : Codes)
      → starts_with (p ++ star ∷ []) (star ∷ dot ∷ []) ≡ false
      → Denotes (p ++ star ∷ []) (p ++ r)
  exact :
      (d : Codes)
      → starts_with d (star ∷ dot ∷ []) ≡ false
      → ends_with d (star ∷ []) ≡ false
      → Denotes d d

matches : Codes → Codes → Bool
matches domain o = (decide (match_origin domain o) (deny "")).allowed

matches_lem :
    (domain o : Codes)
    → matches domain o ≡ (
        if starts_with o (star ∷ dot ∷ [])
        then equals domain (drop_two o) || ends_with domain (dot ∷ drop_two o)
        else if ends_with o (star ∷ [])
        then starts_with domain (drop_last o)
        else equals domain o)
unfolding matches match_origin
matches_lem domain o = ground arith

Denotes-matches : (o domain : Codes) → Denotes o domain → matches domain o ≡ true
Denotes-matches o domain (itself s) =
    ground
      (arith, matches_lem s (star ∷ dot ∷ s), starts_with-append (star ∷ dot ∷ []) s, equals_refl s)
Denotes-matches o domain (subdomain r s) = ground (
  arith,
  matches_lem (r ++ dot ∷ s) (star ∷ dot ∷ s),
  starts_with-append (star ∷ dot ∷ []) s,
  ends_with-append r (dot ∷ s),
)
Denotes-matches o domain (extension p r h) = ground (
  arith,
  matches_lem (p ++ r) (p ++ star ∷ []),
  h,
  ends_with-append p (star ∷ []),
  drop_last-append p star,
  starts_with-append p r,
)
Denotes-matches o domain (exact d h g) = ground (arith, matches_lem d d, h, g, equals_refl d)

wildcard :
    (s domain : Codes)
    → equals domain s || ends_with domain (dot ∷ s) ≡ true
    → Denotes (star ∷ dot ∷ s) domain
wildcard s domain h = elim (Bool-cases (equals domain s)) [
  | inl e ↦ subst (λ x. Denotes (star ∷ dot ∷ s) x) (sym (equals_iff domain s e)) (itself s)
  | inr e ↦
      let (r, f) = ends_with_front domain (dot ∷ s) (ground (arith, e, h)) in
      subst (λ x. Denotes (star ∷ dot ∷ s) x) (sym f) (subdomain r s)
]

matches-Denotes : (o domain : Codes) → matches domain o ≡ true → Denotes o domain
matches-Denotes o domain h = elim (Bool-cases (starts_with o (star ∷ dot ∷ []))) [
  | inl e ↦
      let (s, f) = starts_with_rest o (star ∷ dot ∷ []) e in
      subst (λ x. Denotes x domain) (sym f)
        (wildcard s domain (
          ground (
            arith,
            subst (λ x. matches domain x ≡ true) f h,
            matches_lem domain (star ∷ dot ∷ s),
            starts_with-append (star ∷ dot ∷ []) s,
          )))
  | inr e ↦ elim (Bool-cases (ends_with o (star ∷ []))) [
    | inl g ↦
        let f = drop_last_lem o star g in
        let (r, d) =
          starts_with_rest domain (drop_last o) (ground (arith, h, matches_lem domain o, e, g)) in
        subst (λ x. Denotes x domain) (sym f)
          (subst (λ x. Denotes (drop_last o ++ star ∷ []) x) (sym d)
            (extension (drop_last o) r (sym (ap (λ x. starts_with x (star ∷ dot ∷ [])) f) ∙ e)))
    | inr g ↦
        let d = equals_iff domain o (ground (arith, h, matches_lem domain o, e, g)) in
        subst (λ x. Denotes o x) (sym d) (exact o e g)
  ]
]

-- Some pattern of the list denotes the domain.
pub data Lists (domain : Codes) : List Codes → Type 0 where
  here : {o : Codes} {rest : List Codes} → Denotes o domain → Lists domain (o ∷ rest)
  there : {o : Codes} {rest : List Codes} → Lists domain rest → Lists domain (o ∷ rest)

allowed-match_any :
    (domain o : Codes) (rest : List Codes)
    → (match_any domain (o ∷ rest)).allowed ≡ (matches domain o || (match_any domain rest).allowed)
unfolding match_any matches match_origin
allowed-match_any domain o rest = ground arith

match_any-Lists :
    (domain : Codes) (os : List Codes) → (match_any domain os).allowed ≡ true → Lists domain os
match_any-Lists domain [] h = unfold match_any in cc
match_any-Lists domain (o ∷ os) h = elim (Bool-cases (matches domain o)) [
  | inl e ↦ here (matches-Denotes o domain e)
  | inr e ↦ there (match_any-Lists domain os (ground (arith, allowed-match_any domain o os, e, h)))
]

Lists-match_any :
    (domain : Codes) (os : List Codes) → Lists domain os → (match_any domain os).allowed ≡ true
Lists-match_any domain [] x = elim x [ ]
Lists-match_any domain (o ∷ os) (here d) =
    ground (arith, allowed-match_any domain o os, Denotes-matches o domain d)
Lists-match_any domain (o ∷ os) (there l) =
    ground (arith, allowed-match_any domain o os, Lists-match_any domain os l)

module _ (netloc : Codes → Option Codes) where
  -- What an allowlist allows: everything if it has the pattern `*`; otherwise an origin, not empty,
  -- whose domain some pattern denotes.
  pub data Allows (os : List Codes) : Option Codes → Type 0 where
    everyone :
        {origin : Option Codes} → any (λ o. equals o (star ∷ [])) os ≡ true → Allows os origin
    listed :
        (c : ℕ) (origin domain : Codes)
        → netloc (c ∷ origin) ≡ some domain
        → Lists domain os
        → Allows os (some (c ∷ origin))

  -- An origin, not empty, that cannot be parsed.
  pub data Unparsed : Option Codes → Type 0 where
    unparsed : (c : ℕ) (origin : Codes) → netloc (c ∷ origin) ≡ none → Unparsed (some (c ∷ origin))

  abbrev decision : List Codes → Option Codes → Option Codes → Option AccessDecision
  unfolding evaluate_access
  decision os origin agent =
      evaluate_access netloc os (record { origin = origin; user_agent = agent })

  abbrev lets_in : Option AccessDecision → Bool
  lets_in none = false
  lets_in (some d) = d.allowed

  domain-Allows :
      (os : List Codes) (c : ℕ) (o : Codes) (d : Option Codes)
      → netloc (c ∷ o) ≡ d
      → lets_in (evaluate_domain os d) ≡ true
      → Allows os (some (c ∷ o))
  domain-Allows os c o none e h = cc
  domain-Allows [] c o (some d) e h = cc
  domain-Allows (p ∷ os) c o (some d) e h = listed c o d e (match_any-Lists d (p ∷ os) h)

  evaluate-Allows :
      (os : List Codes) (origin agent : Option Codes)
      → lets_in (decision os origin agent) ≡ true
      → Allows os origin
  unfolding evaluate_access
  evaluate-Allows os none agent h = everyone (ground (arith, h))
  evaluate-Allows os (some []) agent h = everyone (ground (arith, h))
  evaluate-Allows os (some (c ∷ o)) agent h =
      elim (Bool-cases (any (λ o. equals o (star ∷ [])) os)) [
        | inl e ↦ everyone e
        | inr e ↦ domain-Allows os c o (netloc (c ∷ o)) refl (ground (arith, e, h))
      ]

  Allows-evaluate :
      (os : List Codes) (origin agent : Option Codes)
      → Allows os origin
      → lets_in (decision os origin agent) ≡ true
  unfolding evaluate_access
  Allows-evaluate os origin agent (everyone e) = rw e refl
  Allows-evaluate [] origin agent (listed c o d e l) = elim l [ ]
  Allows-evaluate (p ∷ os) origin agent (listed c o d e l) =
      ground (arith, e, Lists-match_any d (p ∷ os) l)

  domain-Unparsed :
      (os : List Codes) (c : ℕ) (o : Codes) (d : Option Codes)
      → netloc (c ∷ o) ≡ d
      → evaluate_domain os d ≡ none
      → Unparsed (some (c ∷ o))
  domain-Unparsed os c o none e h = unparsed c o e
  domain-Unparsed os c o (some d) e h = absurd (cc h)

  evaluate-Unparsed :
      (os : List Codes) (origin agent : Option Codes)
      → decision os origin agent ≡ none
      → (any (λ o. equals o (star ∷ [])) os ≡ false) × Unparsed origin
  unfolding evaluate_access
  evaluate-Unparsed os none agent h = elim (Bool-cases (any (λ o. equals o (star ∷ [])) os)) [
    | inl e ↦ absurd (ground (arith, e, h))
    | inr e ↦ absurd (ground (arith, e, h))
  ]
  evaluate-Unparsed os (some []) agent h = elim (Bool-cases (any (λ o. equals o (star ∷ [])) os)) [
    | inl e ↦ absurd (ground (arith, e, h))
    | inr e ↦ absurd (ground (arith, e, h))
  ]
  evaluate-Unparsed os (some (c ∷ o)) agent h =
      elim (Bool-cases (any (λ o. equals o (star ∷ [])) os)) [
        | inl e ↦ absurd (ground (arith, e, h))
        | inr e ↦ (e, domain-Unparsed os c o (netloc (c ∷ o)) refl (ground (arith, e, h)))
      ]

  Unparsed-evaluate :
      (os : List Codes) (origin agent : Option Codes)
      → any (λ o. equals o (star ∷ [])) os ≡ false
      → Unparsed origin
      → decision os origin agent ≡ none
  unfolding evaluate_access
  Unparsed-evaluate os origin agent e (unparsed c o h) = rw (e, h) refl

  -- What the handler makes of the decision.
  abbrev validated : Option AccessDecision → Option (Bool × Option ℕ)
  validated none = none
  validated (some d) = some (if d.allowed then (true, none) else (false, some 1008))

  validate_lem :
      (os : List Codes) (origin agent : Option Codes)
      → validate_connection netloc (some os) origin agent ≡ validated (decision os origin agent)
  unfolding validate_connection check_access evaluate_access
  validate_lem os origin agent = ground arith

  validated-in :
      (o : Option AccessDecision)
      → (validated o ≡ some (true, none) ↔ lets_in o ≡ true)
        × (validated o ≡ none ↔ o ≡ none)
        × ((validated o ≡ some (true, none))
            ⊎ ((validated o ≡ some (false, some 1008)) ⊎ (validated o ≡ none)))
  validated-in none = (((λ h. cc), (λ h. cc)), ((λ h. refl), (λ h. refl)), inr (inr refl))
  validated-in (some d) = elim (Bool-cases d.allowed) [
    | inl e ↦ (
      ((λ h. e), (λ h. rw e refl)),
      ((λ h. absurd (cc h)), (λ h. absurd (cc h))),
      inl (rw e refl),
    )
    | inr e ↦ (
      ((λ h. ground (arith, e, h)), (λ h. ground (arith, e, h))),
      ((λ h. absurd (cc h)), (λ h. absurd (cc h))),
      inr (inl (rw e refl)),
    )
  ]

  -- With an allowlist a connection is let in exactly if the allowlist allows its origin; the check
  -- raises, and closes nothing, exactly if the list lacks the pattern `*` and the origin is not
  -- empty and cannot be parsed; and any other connection is refused and closed with the code 1008.
  pub validate_connection_iff :
      (os : List Codes) (origin agent : Option Codes)
      → (validate_connection netloc (some os) origin agent ≡ some (true, none) ↔ Allows os origin)
        × (validate_connection netloc (some os) origin agent ≡ none
            ↔ (any (λ o. equals o (star ∷ [])) os ≡ false) × Unparsed origin)
        × ((validate_connection netloc (some os) origin agent ≡ some (true, none))
            ⊎ ((validate_connection netloc (some os) origin agent ≡ some (false, some 1008))
                ⊎ (validate_connection netloc (some os) origin agent ≡ none)))
  validate_connection_iff os origin agent =
      let v = validated-in (decision os origin agent) in
      rw (validate_lem os origin agent) (
        (
          (λ h. evaluate-Allows os origin agent (v.0.0 h)),
          (λ h. v.0.1 (Allows-evaluate os origin agent h)),
        ),
        (
          (λ h. evaluate-Unparsed os origin agent (v.1.0 h)),
          (λ h. v.1.1 (Unparsed-evaluate os origin agent h.0 h.1)),
        ),
        v.2,
      )
