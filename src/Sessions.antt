-- ===== src/Sessions.antt =====
-- core/sessions/domain/entities/session.py: the session entity. The fields `resources_mounted` and
-- `response`, which only the HTTP layer reads back, are left out.
use mad_edge.Prelude.{ℕ, Bool, Option, List, String, ltb, if◌then◌else◌}
use mad_edge.Policy.{DispatchPolicy}

pub data SessionStatus : Type 0 where
  created running idle error deleted : SessionStatus

-- `agent` is a dict; its `name` and `provider` are read.
pub record Session : Type 0 where
  pub session_id : String
  pub agent_name : String
  pub provider : Option String
  pub workspace : String
  pub working_directory : String
  pub status : SessionStatus
  pub base_branch : Option String
  pub model : Option String
  pub effort : Option String
  pub timeout_s : Option ℕ
  pub auto_sync : Option Bool
  pub tokens_to_redact : List String
  pub dispatch_policy : Option DispatchPolicy
  pub manual_drain_remaining : ℕ
  pub priority : ℕ
  pub last_conversation_id : Option String
  pub created_at : ℕ
  pub updated_at : ℕ

unfoldable pub mark_deleted : Session → Session
mark_deleted s = record s { status = deleted }

-- `touch`: an older timestamp does not pull `updated_at` back.
unfoldable pub touch : Session → ℕ → Session
touch s timestamp = if ltb s.updated_at timestamp then record s { updated_at = timestamp } else s
