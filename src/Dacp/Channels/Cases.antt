-- ===== src/Dacp/Channels/Cases.antt =====
-- handlers/dacp/channel.py: proofs by the cases of a guard.
use py_fdc3_desktop_agent.Base.{
  ◌≡◌, refl, Bool, true, false, Option, none, some, List, if◌then◌else◌,
}
use py_fdc3_desktop_agent.Core.Channels.State.{ChannelInstance}
use py_fdc3_desktop_agent.Dacp.Agent.{Agent, Message}
use py_fdc3_desktop_agent.Dacp.Guards.{with_channel, with_access}

module _ {ℓ} (P : Agent × List Message → Type ℓ) where
  pub with_channel-cases :
      (a : Agent) (refusal : List Message) (o : Option ChannelInstance)
      (body : ChannelInstance → Agent × List Message)
      → P (a, refusal)
      → ((ch : ChannelInstance) → o ≡ some ch → P (body ch))
      → P (with_channel a refusal o body)
  unfolding with_channel
  with_channel-cases a refusal none body p q = p
  with_channel-cases a refusal (some ch) body p q = q ch refl

  pub with_access-cases :
      (a : Agent) (refusal : List Message) (b : Bool) (out : Agent × List Message)
      → P (a, refusal)
      → (b ≡ true → P out)
      → P (with_access a refusal b out)
  unfolding with_access
  with_access-cases a refusal true out p q = q refl
  with_access-cases a refusal false out p q = p

  -- With the test's outcome in both cases.
  pub with_access-split :
      (a : Agent) (refusal : List Message) (b : Bool) (out : Agent × List Message)
      → (b ≡ false → P (a, refusal))
      → (b ≡ true → P out)
      → P (with_access a refusal b out)
  unfolding with_access
  with_access-split a refusal true out p q = q refl
  with_access-split a refusal false out p q = p refl

  -- An `if` between two outcomes.
  pub if-cases : (b : Bool) (x y : Agent × List Message) → P x → P y → P (if b then x else y)
  if-cases true x y p q = p
  if-cases false x y p q = q
