-- ===== src/AccessControl.antt =====
-- access_control/__init__.py and handlers/access_control.py: which origins may connect.
pub mod Text
pub mod Allowlist
mod Tests
use py_fdc3_desktop_agent.Base.{
  ℕ, String, Bool, true, false, not, ◌||◌, Option, none, some, List, [], ◌∷◌, if◌then◌else◌,
}
use py_fdc3_desktop_agent.Base.Lists.{is_empty, any}
use py_fdc3_desktop_agent.AccessControl.Text.{
  Codes, equals, starts_with, ends_with, drop_last, star, dot,
}

-- The application and the instance of a request are never set, and no policy reads the user agent.
pub record AccessRequest : Type 0 where
  pub origin : Option Codes
  pub user_agent : Option Codes

pub record AccessDecision : Type 0 where
  pub allowed : Bool
  pub reason : Option String

abbrev pub allow : String → AccessDecision
allow reason = record { allowed = true; reason = some reason }

abbrev pub deny : String → AccessDecision
deny reason = record { allowed = false; reason = some reason }

-- `allowed_origin[2:]`
abbrev pub drop_two : Codes → Codes
drop_two [] = []
drop_two (a ∷ []) = []
drop_two (a ∷ b ∷ s) = s

-- The body of the loop: what it returns for one pattern, or `none` to go on.
unfoldable pub match_origin : Codes → Codes → Option AccessDecision
match_origin origin_domain allowed_origin =
    if starts_with allowed_origin (star ∷ dot ∷ [])
    then (let suffix = drop_two allowed_origin in
        if equals origin_domain suffix || ends_with origin_domain (dot ∷ suffix)
        then some (allow "Origin matches wildcard pattern")
        else none)
    else if ends_with allowed_origin (star ∷ [])
    then (if starts_with origin_domain (drop_last allowed_origin)
        then some (allow "Origin matches wildcard pattern")
        else none)
    else if equals origin_domain allowed_origin
    then some (allow "Origin in allowlist")
    else none

abbrev pub decide : Option AccessDecision → AccessDecision → AccessDecision
decide none rest = rest
decide (some d) rest = d

unfoldable pub match_any : Codes → List Codes → AccessDecision
match_any origin_domain [] = deny "Origin not in allowlist"
match_any origin_domain (o ∷ rest) =
    decide (match_origin origin_domain o) (match_any origin_domain rest)

-- The tests after `urlparse`, which raises `ValueError` for some texts: then the policy raises.
abbrev pub evaluate_domain : List Codes → Option Codes → Option AccessDecision
evaluate_domain allowed_origins none = none
evaluate_domain allowed_origins (some origin_domain) = some (
    if is_empty allowed_origins
    then deny "Empty allowlist"
    else match_any origin_domain allowed_origins)

-- `urlparse(origin).netloc`, or `none` if it raises, is Python's: the parameter `netloc`.
module _ (netloc : Codes → Option Codes) where
  -- `none` is an exception that goes through, here and below.
  unfoldable pub evaluate_access : List Codes → AccessRequest → Option AccessDecision
  unfolding match_any
  evaluate_access allowed_origins request =
      if any (λ o. equals o (star ∷ [])) allowed_origins
      then some (allow "Wildcard allowlist")
      else elim request.origin [
        | none ↦ some (deny "No origin provided")
        | some origin ↦
            if is_empty origin
            then some (deny "No origin provided")
            else evaluate_domain allowed_origins (netloc origin)
      ]

  -- The manager's policy: an allowlist, or none.
  unfoldable pub check_access : Option (List Codes) → AccessRequest → Option AccessDecision
  check_access none request = some (allow "No access control policy configured")
  check_access (some allowed_origins) request = evaluate_access allowed_origins request

  -- The policy that the constructor makes of `allowed_origins`.
  abbrev pub policy_of : Option (List Codes) → Option (List Codes)
  policy_of none = none
  policy_of (some allowed_origins) = if is_empty allowed_origins then none else some allowed_origins

  -- `self.policy = policy`
  abbrev pub set_policy : Option (List Codes) → List Codes → Option (List Codes)
  set_policy policy allowed_origins = some allowed_origins

  -- `True`, or `False` after the socket is closed with the code.
  unfoldable pub validate_connection :
      Option (List Codes) → Option Codes → Option Codes → Option (Bool × Option ℕ)
  validate_connection policy origin user_agent =
      elim (check_access policy (record { origin = origin; user_agent = user_agent })) [
        | none ↦ none
        | some decision ↦ some (if decision.allowed then (true, none) else (false, some 1008))
      ]
