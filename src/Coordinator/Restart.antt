-- ===== src/Coordinator/Restart.antt =====
-- `bootstrap_from_log` and `_resume` of core/orchestration/use_cases/workflow_coordinator.py.
use mad_edge.Prelude.{
  ℕ, take, not, ◌&&◌, ◌||◌, Option, none, some, List, [], ◌∷◌, String, elem, str_eq, if◌then◌else◌,
}
use mad_edge.Prelude.Dict.{Dict, lookup, insert}
use mad_edge.Json.{get, ◌>>=◌, read_text}
use mad_edge.Events.{
  task_completed, task_failed, workflow_created, workflow_step_started, workflow_step_completed,
  workflow_step_failed, workflow_completed, workflow_failed,
}
use mad_edge.Workflow.{WorkflowStep}
use mad_edge.Workflow.Serial.{steps_from_created_data}
use mad_edge.Coordinator.{
  Entry, Key, has_key, lookup_key, Terminal, Coordinator, Surroundings, mark_step_completed,
  mark_step_failed, completed, failed,
}
use mad_edge.Coordinator.Advance.{registered, advance}

-- `_apply_persisted`
abbrev record_started : String → String → Option String → Coordinator → Coordinator
record_started wf_id step_id none c = record c { started = (wf_id, step_id) ∷ c.started }
record_started wf_id step_id (some session_id) c = record c {
  started = (wf_id, step_id) ∷ c.started;
  step_session = ((wf_id, step_id), session_id) ∷ c.step_session;
  session_step = insert session_id (wf_id, step_id) c.session_step;
}

unfoldable pub apply_persisted : Entry → Coordinator → Option Coordinator
apply_persisted (sid, workflow_created data') c = do
  wf_id ← read_text (get "workflow_id" data')
  steps ← steps_from_created_data data'
  some (registered wf_id steps c)
apply_persisted (sid, workflow_step_started step_id session_id) c =
    some (record_started sid step_id session_id c)
apply_persisted (sid, workflow_step_completed step_id) c =
    some (record c { completed_steps = (sid, step_id) ∷ c.completed_steps })
apply_persisted (sid, workflow_step_failed step_id reason) c =
    some (record c { failed_steps = (sid, step_id) ∷ c.failed_steps })
apply_persisted (sid, workflow_completed) c =
    some (record c { workflow_terminal = sid ∷ c.workflow_terminal })
apply_persisted (sid, workflow_failed reason) c =
    some (record c { workflow_terminal = sid ∷ c.workflow_terminal })
apply_persisted (sid, task_completed id) c =
    some (record c { session_terminal = insert sid completed c.session_terminal })
apply_persisted (sid, task_failed id reason) c =
    some (record c { session_terminal = insert sid failed c.session_terminal })
apply_persisted (sid, _) c = some c

unfoldable pub apply_all : List Entry → Coordinator → Option Coordinator
unfolding apply_persisted
apply_all [] c = some c
apply_all (e ∷ log) c = apply_persisted e c >>= apply_all log

-- `bootstrap_from_log`, of the log in the order of its ids, in which the query returns it.
abbrev pub bootstrap_limit : ℕ
bootstrap_limit = 1_000_000

unfoldable pub bootstrap_from_log : List Entry → Coordinator → Option Coordinator
unfolding apply_all
bootstrap_from_log log c = apply_all (take bootstrap_limit log) c

-- One turn of the inner loop of `_resume`: how the session of a step that has started, and not
-- ended, ended.
unfoldable pub reconcile : String → String → Option Terminal → Coordinator → Coordinator
unfolding mark_step_completed mark_step_failed
reconcile wf_id step_id none c = c
reconcile wf_id step_id (some completed) c = mark_step_completed wf_id step_id c
reconcile wf_id step_id (some failed) c = mark_step_failed wf_id step_id "interrupted_by_restart" c

abbrev pub terminal_of : Option String → Coordinator → Option Terminal
terminal_of none c = none
terminal_of (some session_id) c =
    if str_eq session_id "" then none else lookup session_id c.session_terminal

unfoldable pub resume_step : String → String → Coordinator → Coordinator
resume_step wf_id step_id c =
    let key : Key = (wf_id, step_id) in
    if has_key key c.started && not (has_key key c.completed_steps || has_key key c.failed_steps)
    then reconcile wf_id step_id (terminal_of (lookup_key key c.step_session) c) c
    else c

unfoldable pub resume_steps : String → List WorkflowStep → Coordinator → Coordinator
unfolding resume_step
resume_steps wf_id [] c = c
resume_steps wf_id (step ∷ steps) c = resume_steps wf_id steps (resume_step wf_id step.step_id c)

module _ (s : Surroundings) where
  -- `_resume`, for the workflows in the order of their dict.
  unfoldable pub resume : Dict (List WorkflowStep) → Coordinator → Coordinator
  unfolding resume_steps advance
  resume [] c = c
  resume ((wf_id, steps) ∷ rest) c = resume rest (
      if elem wf_id c.workflow_terminal
      then c
      else advance s wf_id steps (resume_steps wf_id steps c))
