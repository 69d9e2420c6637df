-- ===== src/Projection.antt =====
-- adapters/outbound/orchestration/projection.py: the queue and the in-flight task of each session,
-- rebuilt from the `task.*` events.
pub mod View
pub mod Ids
pub mod Lifecycle
pub mod Places
use mad_edge.Prelude.{
  ℕ, Bool, true, false, ◌&&◌, ◌||◌, ltb, take, Option, none, some, List, [], ◌∷◌, ◌++◌, String,
  ◌==◌, str_eq, keep, not, elem, str_ltb, if◌then◌else◌,
}
use mad_edge.Prelude.Dict.{Dict, lookup, insert, remove, keys}
use mad_edge.Prelude.Sorting.{sort_by}
use mad_edge.Tasks.{Task, ConversationMode, new, resume}
use mad_edge.Events.{
  Raw, QueuedData, Body, Event, task_queued, task_dispatched, task_retrying, task_deferred,
  task_completed, task_failed, task_cancelled,
}

pub record RetryInfo : Type 0 where
  pub attempt : ℕ
  pub retry_after_s : ℕ
  pub reason : String

pub record Projection : Type 0 where
  pub queues : Dict (List Task)
  pub flights : Dict Task
  pub retries : Dict RetryInfo

unfoldable pub empty : Projection
empty = record { queues = []; flights = []; retries = [] }

abbrev pub list_or_empty : Option (List Task) → List Task
list_or_empty none = []
list_or_empty (some ts) = ts

-- `queued`, `in_flight` and `retry_info`
unfoldable pub queued : Projection → String → List Task
queued p sid = list_or_empty (lookup sid p.queues)

unfoldable pub in_flight : Projection → String → Option Task
in_flight p sid = lookup sid p.flights

unfoldable pub retry_info : Projection → String → Option RetryInfo
retry_info p sid = lookup sid p.retries

-- `raw_mode if raw_mode in ("new", "resume") else "new"`
unfoldable pub parse_mode : Raw → ConversationMode
parse_mode (Raw.text s) = if str_eq s "resume" then resume else new
parse_mode _ = new

-- `raw_auto_sync if isinstance(raw_auto_sync, bool) else None`
unfoldable pub parse_auto_sync : Raw → Option Bool
parse_auto_sync (Raw.flag b) = some b
parse_auto_sync _ = none

-- The task that a `task.queued` event describes.
unfoldable pub task_of : String → ℕ → QueuedData → Task
unfolding parse_mode parse_auto_sync
task_of sid timestamp d = record {
  task_id = d.task_id;
  session_id = sid;
  content = d.content;
  scheduled_for = d.scheduled_for;
  created_at = timestamp;
  model = d.model;
  effort = d.effort;
  conversation_mode = parse_mode d.conversation_mode;
  auto_sync = parse_auto_sync d.auto_sync;
}

-- `queue.pop(index)` at the first task with the id.
unfoldable pub pop_task : ℕ → List Task → Option (Task × List Task)
pop_task id [] = none
pop_task id (t ∷ ts) =
    if t.task_id == id
    then some (t, ts)
    else elim (pop_task id ts) [ none ↦ none | some (u, us) ↦ some (u, t ∷ us) ]

-- `in_flight is not None and in_flight.task_id == task_id`
abbrev pub is_task : ℕ → Option Task → Bool
is_task id none = false
is_task id (some t) = t.task_id == id

unfoldable on_queued : String → ℕ → QueuedData → Projection → Projection
unfolding queued task_of
on_queued sid timestamp d p = record p {
  queues = insert sid (queued p sid ++ task_of sid timestamp d ∷ []) p.queues;
}

unfoldable on_dispatched : String → ℕ → Projection → Projection
unfolding queued
on_dispatched sid id p = elim (pop_task id (queued p sid)) [
  | none ↦ p
  | some (t, rest) ↦ record {
    queues = insert sid rest p.queues;
    flights = insert sid t p.flights;
    retries = remove sid p.retries;
  }
]

unfoldable on_retrying : String → ℕ → ℕ → String → Projection → Projection
on_retrying sid attempt retry_after_s reason p =
    let info : RetryInfo = record {
      attempt = attempt;
      retry_after_s = retry_after_s;
      reason = reason;
    } in
    record p { retries = insert sid info p.retries }

unfoldable on_deferred : String → ℕ → Projection → Projection
unfolding queued in_flight
on_deferred sid id p = elim (in_flight p sid) [
  | none ↦ p
  | some t ↦
      if t.task_id == id
      then record {
        queues = insert sid (t ∷ queued p sid) p.queues;
        flights = remove sid p.flights;
        retries = remove sid p.retries;
      }
      else p
]

unfoldable pub on_terminal : String → ℕ → Projection → Projection
unfolding queued in_flight
on_terminal sid id p =
    if is_task id (in_flight p sid)
    then record p { flights = remove sid p.flights; retries = remove sid p.retries }
    else record p {
      queues = insert sid (keep (λ t. not (t.task_id == id)) (queued p sid)) p.queues;
    }

-- The branches of `apply`, by the event's type.
unfoldable pub dispatch_body : String → ℕ → Body → Projection → Projection
unfolding on_queued on_dispatched on_retrying on_deferred on_terminal
dispatch_body sid timestamp (task_queued d) p = on_queued sid timestamp d p
dispatch_body sid timestamp (task_dispatched id) p = on_dispatched sid id p
dispatch_body sid timestamp (task_retrying id attempt after reason) p =
    on_retrying sid attempt after reason p
dispatch_body sid timestamp (task_deferred id reason scheduled_for) p = on_deferred sid id p
dispatch_body sid timestamp (task_completed id) p = on_terminal sid id p
dispatch_body sid timestamp (task_failed id reason) p = on_terminal sid id p
dispatch_body sid timestamp (task_cancelled id reason) p = on_terminal sid id p
dispatch_body sid timestamp _ p = p

unfoldable pub apply : Event → Projection → Projection
unfolding dispatch_body
apply e p = dispatch_body e.session_id e.timestamp e.body p

-- The events of a list, one after the other.
unfoldable pub apply_all : List Event → Projection → Projection
apply_all [] p = p
apply_all (e ∷ log) p = apply_all log (apply e p)

abbrev pub bootstrap_limit : ℕ
bootstrap_limit = 1_000_000

-- The order of a query of the log, by the id and then the time. The texts of the ids have one width,
-- so they come in the order of the ids; an event without an id comes first.
abbrev pub id_ltb : Option ℕ → Option ℕ → Bool → Bool
id_ltb none none tied = tied
id_ltb none (some b) tied = true
id_ltb (some a) none tied = false
id_ltb (some a) (some b) tied = ltb a b || (a == b && tied)

unfoldable pub logged_ltb : Event → Event → Bool
logged_ltb d e = id_ltb d.event_id e.event_id (ltb d.timestamp e.timestamp)

-- `log.query(EventQuery(limit=_BOOTSTRAP_LIMIT))`
unfoldable pub query_log : List Event → List Event
unfolding sort_by logged_ltb
query_log log = take bootstrap_limit (sort_by logged_ltb log)

unfoldable pub bootstrap_from_log : List Event → Projection → Projection
unfolding query_log apply_all
bootstrap_from_log log p = apply_all (query_log log) p

-- `pending_session_ids`: the ids with a queued or an in-flight task, sorted.
abbrev pub is_empty : List Task → Bool
is_empty [] = true
is_empty (t ∷ ts) = false

abbrev pub add_id : String → List String → List String
add_id sid sids = if elem sid sids then sids else sid ∷ sids

abbrev pub id_set : List String → List String
id_set [] = []
id_set (sid ∷ sids) = add_id sid (id_set sids)

unfoldable pub pending_session_ids : Projection → List String
unfolding sort_by
pending_session_ids p =
    sort_by str_ltb
      (id_set (keys (keep (λ entry. not (is_empty entry.1)) p.queues) ++ keys p.flights))
