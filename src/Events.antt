-- ===== src/Events.antt =====
-- core/events/domain/event.py: an event of the log, with the payload of each type that the program
-- emits as a constructor. adapters/outbound/events/in_memory_event_bus.py and
-- core/events/emitter.py: a subscription's queue, and the emission of an event.
use mad_edge.Prelude.{
  ℕ, Bool, false, Option, List, [], ◌∷◌, ◌++◌, String, length, leb, if◌then◌else◌,
}
use mad_edge.Json.{Fields}
use mad_edge.Policy.{DispatchPolicy}

-- A payload field as JSON may hold it: `other` is any value that is neither a Boolean nor a text.
pub data Raw : Type 0 where
  absent other : Raw
  flag : Bool → Raw
  text : String → Raw

pub record QueuedData : Type 0 where
  pub task_id : ℕ
  pub content : String
  pub scheduled_for : String
  pub model : Option String
  pub effort : Option String
  pub conversation_mode : Raw
  pub auto_sync : Raw

pub record GitResult : Type 0 where
  pub base_sha : String
  pub head_branch : Option String
  pub head_sha : String
  pub commits : List (String × String)
  pub dirty : Bool
  pub pushed : Bool

-- The `type` and `data` of an event. `other_event` is any type that no modelled code reads.
pub data Body : Type 0 where
  task_queued : QueuedData → Body
  task_queued_for_window : ℕ → Option ℕ → Body
  task_dispatched : ℕ → Body
  task_retrying : ℕ → ℕ → ℕ → String → Body
  task_deferred : ℕ → String → Option ℕ → Body
  task_completed : ℕ → Body
  task_failed : ℕ → String → Body
  task_cancelled : ℕ → String → Body
  task_git_result : ℕ → GitResult → Body
  workflow_created : Fields → Body
  workflow_step_started : String → Option String → Body
  workflow_step_completed : String → Body
  workflow_step_failed : String → String → Body
  workflow_completed : Body
  workflow_failed : String → Body
  dispatch_policy_updated : DispatchPolicy → Body
  dispatch_policy_cleared : Body
  dispatch_priority_updated : ℕ → Body
  session_deleted : String → Body
  other_event : String → Body

pub record Event : Type 0 where
  pub event_id : Option ℕ
  pub session_id : String
  pub body : Body
  pub timestamp : ℕ

-- A subscriber's queue; `close` is the sentinel that ends its stream.
pub data Item : Type 0 where
  event : Event → Item
  close : Item

pub record Subscription : Type 0 where
  pub items : List Item
  pub subscribed : Bool

abbrev pub max_queue_size : ℕ
max_queue_size = 256

-- `InMemoryEventBus.publish`, as one subscriber with no filter sees it: a full queue gets the
-- sentinel and the subscriber is removed.
unfoldable pub publish : Event → Subscription → Subscription
publish e s =
    if s.subscribed
    then if leb max_queue_size (length s.items)
      then record { items = s.items ++ close ∷ []; subscribed = false }
      else record s { items = s.items ++ event e ∷ [] }
    else s
