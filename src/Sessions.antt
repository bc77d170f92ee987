-- ===== src/Sessions.antt =====
-- types.py: the sessions that the WCP handler writes and that the DACP handlers read.
use py_fdc3_desktop_agent.Base.{String, Option, none, some}
use py_fdc3_desktop_agent.Base.Dict.{Dict}

pub record WcpIdentity : Type 0 where
  pub app_id : Option String
  pub instance_id : Option String
  pub instance_uuid : Option String

-- pydantic's `AnyUrl`, the type of the two URLs of a hello: an object that is no text.
pub record AnyUrl : Type 0 where
  pub text : String

-- The dict that a hello leaves in its session.
pub record Wcp1Identity : Type 0 where
  pub identity_url : AnyUrl
  pub actual_url : AnyUrl
  pub fdc3_version : String

pub record WcpSession : Type 0 where
  pub identity : Option WcpIdentity
  pub wcp1_identity : Option Wcp1Identity
  pub state : Option String

abbrev pub WcpSessions : Type 0
WcpSessions = Dict WcpSession

-- `WcpSession()`
abbrev pub empty_session : WcpSession
empty_session = record { identity = none; wcp1_identity = none; state = none }

-- A session that has only an identity.
abbrev pub identified : WcpIdentity → WcpSession
identified identity = record empty_session { identity = some identity }
