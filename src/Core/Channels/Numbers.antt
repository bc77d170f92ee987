-- ===== src/Core/Channels/Numbers.antt =====
-- core/channel_manager.py: the numbers in the identifiers of subscriptions, read back.
use Prim.Native.Char.{code}
use Prim.Native.Nat.{◌*◌}
use Prim.Native.String.append
use py_fdc3_desktop_agent.Base.{
  ℕ, zero, suc, ◌+◌, ◌-◌, ◌/◌, ◌%◌, ◌≤◌, ◌<◌, String, ◌≡◌, refl, sym, ap, ◌∙◌, [], ◌∷◌, ◌++◌, arith,
  ltb, concat, Bool-cases, inl, inr,
}
use py_fdc3_desktop_agent.AccessControl.Text.{Codes, codes}
use py_fdc3_desktop_agent.Core.Channels.Events.{digit, decimal, subscription_key}

-- The number that the digits stand for, after digits that stand for `acc`.
unfoldable pub value : ℕ → Codes → ℕ
value acc [] = acc
value acc (c ∷ s) = value (acc * 10 + (c - 48)) s

-- The number in an identifier, after the four characters of "sub_".
abbrev after_prefix : Codes → Codes
after_prefix (a ∷ b ∷ c ∷ d ∷ digits) = digits
after_prefix s = []

number_of : String → ℕ
number_of key = value 0 (after_prefix (codes key))

codes-concat : (s t : String) → codes (concat s t) ≡ codes s ++ codes t
codes-concat String.[] t = ap codes (append.nil t)
codes-concat (String.◌∷◌ c s) t =
    ap codes (append.cons c s t) ∙ ap (λ x. code c ∷ x) (codes-concat s t)

value-append : (acc : ℕ) (s t : Codes) → value acc (s ++ t) ≡ value (value acc s) t
unfolding value
value-append acc [] t = refl
value-append acc (c ∷ s) t = value-append (acc * 10 + (c - 48)) s t

digit_lem : (acc d : ℕ) → d < 10 → value acc (codes (digit d)) ≡ acc * 10 + d
unfolding value
digit_lem acc zero h = refl
digit_lem acc (suc zero) h = refl
digit_lem acc (suc (suc zero)) h = refl
digit_lem acc (suc (suc (suc zero))) h = refl
digit_lem acc (suc (suc (suc (suc zero)))) h = refl
digit_lem acc (suc (suc (suc (suc (suc zero))))) h = refl
digit_lem acc (suc (suc (suc (suc (suc (suc zero)))))) h = refl
digit_lem acc (suc (suc (suc (suc (suc (suc (suc zero))))))) h = refl
digit_lem acc (suc (suc (suc (suc (suc (suc (suc (suc zero)))))))) h = refl
digit_lem acc (suc (suc (suc (suc (suc (suc (suc (suc (suc zero))))))))) h = refl
digit_lem acc (suc (suc (suc (suc (suc (suc (suc (suc (suc (suc d)))))))))) h = absurd (omega arith)

-- The fuel is enough: for every number, the text that `str` makes of it with the number itself as
-- the fuel is read back as the number.
pub decimal_lem : (fuel n : ℕ) → n ≤ fuel → value 0 (codes (decimal fuel n)) ≡ n
unfolding decimal
decimal_lem zero n h = digit_lem 0 n (omega arith) ∙ omega arith
decimal_lem (suc fuel) n h = elim (Bool-cases (ltb n 10)) [
  | inl small ↦ ground (arith, small, digit_lem 0 n)
  | inr large ↦
      let rest : value 0 (codes (decimal fuel (n / 10))) ≡ n / 10 =
        decimal_lem fuel (n / 10) (ground arith) in
      ground (
        arith,
        large,
        ap (value 0) (codes-concat (decimal fuel (n / 10)) (digit (n % 10))),
        value-append 0 (codes (decimal fuel (n / 10))) (codes (digit (n % 10))),
        digit_lem (n / 10) (n % 10),
        rest,
      )
]

number_of_lem : (n : ℕ) → number_of (subscription_key n) ≡ n
unfolding number_of subscription_key
number_of_lem n =
    ap (λ s. value 0 (after_prefix s)) (codes-concat "sub_" (decimal n n))
    ∙ decimal_lem n n (omega arith)

pub subscription_key-injective : (n m : ℕ) → subscription_key n ≡ subscription_key m → n ≡ m
subscription_key-injective n m e = sym (number_of_lem n) ∙ ap number_of e ∙ number_of_lem m
