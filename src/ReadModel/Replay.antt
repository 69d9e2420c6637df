-- ===== src/ReadModel/Replay.antt =====
-- The flags of a step in adapters/outbound/orchestration/workflow_projection.py after a replay.
use mad_edge.Prelude.{◌≡◌, Bool, false, ◌||◌, Option, none, some, List, String, any, str_eq}
use mad_edge.Json.{get, read_text}
use mad_edge.Coordinator.{Entry, Key, key_eq}
use mad_edge.ReadModel.{StepState, Kind, created, started, completed, failed, kind_of}

-- The events that set a step's flags, and those that make the workflow anew.
abbrev pub starts : Key → String → Kind → Bool
starts k wf_id (started step_id session_id) = key_eq (wf_id, step_id) k
starts k wf_id _ = false

abbrev completes : Key → String → Kind → Bool
completes k wf_id (completed step_id) = key_eq (wf_id, step_id) k
completes k wf_id _ = false

abbrev fails : Key → String → Kind → Bool
fails k wf_id (failed step_id reason) = key_eq (wf_id, step_id) k
fails k wf_id _ = false

abbrev is_text : String → Option String → Bool
is_text w none = false
is_text w (some s) = str_eq s w

unfoldable pub creates : String → Kind → Bool
creates w (created data') = is_text w (read_text (get "workflow_id" data'))
creates w _ = false

abbrev any_entry : (String → Kind → Bool) → List Entry → Bool
any_entry p log = any (λ e. p e.0 (kind_of e.1)) log

-- What the events of a log make of a step.
pub record Replayed (k : Key) (log : List Entry) (before after : StepState) : Type 0 where
  pub started : after.started ≡ (any_entry (starts k) log || before.started)
  pub completed : after.completed ≡ (any_entry (completes k) log || before.completed)
  pub failed : after.failed ≡ (any_entry (fails k) log || before.failed)
  pub depends_on : after.depends_on ≡ before.depends_on

-- What one event makes of it.
record Marked (k : Key) (sid : String) (kind : Kind) (before after : StepState) : Type 0 where
  started : after.started ≡ (starts k sid kind || before.started)
  completed : after.completed ≡ (completes k sid kind || before.completed)
  failed : after.failed ≡ (fails k sid kind || before.failed)
  depends_on : after.depends_on ≡ before.depends_on
