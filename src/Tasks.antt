-- ===== src/Tasks.antt =====
-- core/orchestration/domain: task.py, and the precedence rules of model_config.py, effort_config.py,
-- timeout_config.py and auto_sync_config.py. Times are in microseconds, durations in milliseconds.
use mad_edge.Prelude.{ℕ, Bool, false, Option, none, some, List, [], ◌∷◌, String}

pub data ConversationMode : Type 0 where
  new resume : ConversationMode

-- A task id is a UUID, a 128-bit number.
pub record Task : Type 0 where
  pub task_id : ℕ
  pub session_id : String
  pub content : String
  pub scheduled_for : String
  pub created_at : ℕ
  pub model : Option String
  pub effort : Option String
  pub conversation_mode : ConversationMode
  pub auto_sync : Option Bool

-- The loop `for candidate in (…): if candidate is not None: return candidate`.
abbrev first_set {ℓ} : {A : Type ℓ} → List (Option A) → Option A
first_set [] = none
first_set (some a ∷ rest) = some a
first_set (none ∷ rest) = first_set rest

abbrev pub or_default {ℓ} : {A : Type ℓ} → Option A → A → A
or_default none d = d
or_default (some a) d = a

unfoldable resolve_effective_model :
    Option String → Option String → Option String → Option String → Option String
resolve_effective_model task_model session_model deployment_default machine_default =
    first_set (task_model ∷ session_model ∷ deployment_default ∷ machine_default ∷ [])

unfoldable resolve_effective_effort : Option String → Option String → Option String → Option String
resolve_effective_effort task_effort session_effort deployment_default =
    first_set (task_effort ∷ session_effort ∷ deployment_default ∷ [])

-- `DEFAULT_AGENT_TIMEOUT_S`, 600 seconds
abbrev default_timeout : ℕ
default_timeout = 600_000

unfoldable resolve_effective_timeout : Option ℕ → Option ℕ → ℕ
resolve_effective_timeout session_timeout_s env_timeout_s =
    or_default (first_set (session_timeout_s ∷ env_timeout_s ∷ [])) default_timeout

unfoldable resolve_effective_auto_sync : Option Bool → Option Bool → Option Bool → Bool
resolve_effective_auto_sync task_auto_sync session_auto_sync env_auto_sync =
    or_default (first_set (task_auto_sync ∷ session_auto_sync ∷ env_auto_sync ∷ [])) false
