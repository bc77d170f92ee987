-- ===== src/AccessControl/Tests.antt =====
-- Examples of access_control/__init__.py: two patterns, and origins inside and outside them.
use py_fdc3_desktop_agent.Base.{
  ℕ, zero, suc, Option, if◌then◌else◌, true, false, some, none, List, [], ◌∷◌, ◌≡◌, refl, ◌↔◌, ◌⊎◌,
}
use py_fdc3_desktop_agent.Base.Lists.{any}
use py_fdc3_desktop_agent.AccessControl.Text.{
  Codes, codes, equals, starts_with, ends_with, drop_last, star,
}
use py_fdc3_desktop_agent.AccessControl.{
  match_origin, match_any, evaluate_access, check_access, validate_connection,
}
use py_fdc3_desktop_agent.AccessControl.Allowlist.{Allows, Unparsed, validate_connection_iff}

-- What `urlparse(…).netloc` is of an origin that begins with `https://`.
abbrev without : ℕ → Codes → Codes
without zero s = s
without (suc n) [] = []
without (suc n) (c ∷ s) = without n s

abbrev domain : Codes → Option Codes
domain s = if equals s (codes "http://[") then none else some (without 8 s)

abbrev patterns : List Codes
patterns = codes "*.example.com" ∷ codes "desk*" ∷ []

subdomain_enters :
    validate_connection domain (some patterns) (some (codes "https://app.example.com")) none
    ≡ some (true, none)
unfolding validate_connection check_access evaluate_access match_any match_origin equals starts_with
    ends_with drop_last
subdomain_enters = refl

stranger_is_refused :
    validate_connection domain (some patterns) (some (codes "https://example.org")) none
    ≡ some (false, some 1008)
unfolding validate_connection check_access evaluate_access match_any match_origin equals starts_with
    ends_with drop_last
stranger_is_refused = refl

unparsed_raises : validate_connection domain (some patterns) (some (codes "http://[")) none ≡ none
unfolding validate_connection check_access evaluate_access match_any match_origin equals starts_with
    ends_with drop_last
unparsed_raises = refl

abbrev local_desk : Option Codes
local_desk = some (codes "https://desk.local")

validate_connection_iff_example :
    (validate_connection domain (some patterns) local_desk none ≡ some (true, none)
      ↔ Allows domain patterns local_desk)
    × (validate_connection domain (some patterns) local_desk none ≡ none
        ↔ (any (λ o. equals o (star ∷ [])) patterns ≡ false) × Unparsed domain local_desk)
    × ((validate_connection domain (some patterns) local_desk none ≡ some (true, none))
        ⊎ ((validate_connection domain (some patterns) local_desk none ≡ some (false, some 1008))
            ⊎ (validate_connection domain (some patterns) local_desk none ≡ none)))
validate_connection_iff_example = validate_connection_iff domain patterns local_desk none
