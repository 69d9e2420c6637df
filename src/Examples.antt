-- ===== src/Examples.antt =====
-- Concrete inputs: a time zone, sessions, tasks, a dispatcher and a workflow, for the examples of the
-- child modules.
mod Formats
mod Stores
mod Streams
mod Queues
mod Calls
mod Policies
mod Workflows
use mad_edge.Prelude.{
  suc, ℕ, ◌+◌, ◌*◌, ◌/◌, ◌%◌, ◌≤◌, Bool, true, false, Option, none, some, List, [], ◌∷◌, String,
  arith,
}
use mad_edge.Json.{Fields, end}
use mad_edge.Policy.{
  Zones, found, Window, Days, Weekday, mon, tue, wed, thu, fri, sat, sun, day, all_days,
  DispatchPolicy, immediate, work_window, manual,
}
use mad_edge.Tasks.{Task, ConversationMode, new, resume}
use mad_edge.Sessions.{Session, SessionStatus}
use mad_edge.Events.{Event, Body, Raw, QueuedData, task_queued, task_dispatched, Subscription}
use mad_edge.Projection.{Projection, empty, apply_all}
use mad_edge.Dispatcher.{Stamp, Dispatcher}
use mad_edge.Workflow.{WorkflowMount, WorkflowStep, github}

-- Every zone is UTC; the first day was a Thursday.
abbrev pub utc : Zones
utc = record {
  zone = λ tz. found;
  isoweekday = λ tz t. (t / day + 3) % 7 + 1;
  local_time = λ tz t. t % day;
  isoweekday_range = λ tz t. (omega arith, omega arith);
}

abbrev pub hour : ℕ
hour = 3_600_000_000

-- From ten in the evening to six, on Mondays.
abbrev mondays : Days
mondays Weekday.mon = true
mondays _ = false

abbrev pub night : Window
night = record { start = 22 * hour; end = 6 * hour; timezone = "UTC"; days = all_days }

abbrev pub monday_night : Window
monday_night = record { start = 22 * hour; end = 6 * hour; timezone = "UTC"; days = mondays }

abbrev pub stamp : ℕ → Stamp
stamp n = record { id = suc n; at = n }

abbrev pub task : ℕ → String → ℕ → Task
task id sid at = record {
  task_id = id;
  session_id = sid;
  content = "say hello";
  scheduled_for = "now";
  created_at = at;
  model = none;
  effort = none;
  conversation_mode = new;
  auto_sync = none;
}

abbrev pub session : String → Option DispatchPolicy → ℕ → Session
session sid policy priority = record {
  session_id = sid;
  agent_name = "coder";
  provider = some "claude";
  workspace = "/workspace";
  working_directory = "";
  status = SessionStatus.created;
  base_branch = none;
  model = none;
  effort = none;
  timeout_s = none;
  auto_sync = none;
  tokens_to_redact = [];
  dispatch_policy = policy;
  manual_drain_remaining = 0;
  priority = priority;
  last_conversation_id = none;
  created_at = 0;
  updated_at = 0;
}

abbrev pub queued_event : ℕ → String → ℕ → Event
queued_event id sid at = record {
  event_id = some id;
  session_id = sid;
  body = task_queued (record {
    task_id = id;
    content = "say hello";
    scheduled_for = "now";
    model = none;
    effort = none;
    conversation_mode = Raw.text "new";
    auto_sync = Raw.absent;
  });
  timestamp = at;
}

-- Two tasks wait in "a", one in "b".
abbrev pub log : List Event
log = queued_event 1 "a" 10 ∷ queued_event 2 "a" 11 ∷ queued_event 3 "b" 12 ∷ []

unfoldable pub projection : Projection
projection = apply_all log empty

abbrev pub session_a : Session
session_a = session "a" (some immediate) 1

abbrev pub session_b : Session
session_b = session "b" (some manual) 7

unfoldable pub idle : Dispatcher
idle = record {
  sessions = ("a", session_a) ∷ ("b", session_b) ∷ [];
  deployment = none;
  log = log;
  bus = record { items = []; subscribed = true };
  projection = projection;
  slot = none;
  preparing = none;
  running = none;
  deferred_tasks = [];
  stopping = false;
}

abbrev pub mount : Option String → WorkflowMount
mount from_step = record {
  mount_path = "/workspace/repo";
  type = github;
  url = some "https://example.org/repo.git";
  from_step = from_step;
  ref = "sha";
  content = "";
}

abbrev workflow_step : String → List String → Option String → WorkflowStep
workflow_step id depends_on from_step = record {
  step_id = id;
  agent = end;
  prompt = "go on";
  mounts = mount from_step ∷ [];
  depends_on = depends_on;
  base_branch = none;
  working_directory = none;
  model = none;
  effort = none;
  timeout_s = some 60;
}

-- "test" takes the repository of "build".
abbrev pub two_steps : List WorkflowStep
two_steps = workflow_step "build" [] none ∷ workflow_step "test" ("build" ∷ []) (some "build") ∷ []
