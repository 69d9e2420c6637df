-- ===== src/GlobalQueue.antt =====
-- core/orchestration/use_cases/get_global_queue.py: the view of the queue across the sessions.
pub mod Live
pub mod Agreement
pub mod Order
pub mod Buckets
pub mod Errors
use mad_edge.Prelude.{
  ℕ, Bool, true, false, not, ◌&&◌, ◌||◌, Option, none, some, List, [], ◌∷◌, ◌++◌, map, String, ltb,
  ◌==◌, str_eq, str_ltb, keep, elem, if◌then◌else◌,
}
use mad_edge.Prelude.Dict.{Dict, lookup, insert, values}
use mad_edge.Prelude.Sorting.{sort_by}
use mad_edge.Policy.{
  Zones, DispatchPolicy, is_work_window, resolve_effective_policy, can_dispatch,
  next_window_opening,
}
use mad_edge.Tasks.{Task}
use mad_edge.Sessions.{Session}
use mad_edge.Projection.{Projection, queued, in_flight, pending_session_ids}
use mad_edge.Ordering.{order_ready_candidates}

pub record QueueEntry : Type 0 where
  pub task : Task
  pub priority : ℕ

pub data ReasonKind : Type 0 where
  window manual : ReasonKind

pub record ScheduledEntry : Type 0 where
  pub task : Task
  pub priority : ℕ
  pub reason_kind : ReasonKind
  pub scheduled_for : Option ℕ

pub record GlobalQueueOutput : Type 0 where
  pub in_flight : Option QueueEntry
  pub ready : List QueueEntry
  pub scheduled : List ScheduledEntry

-- The two RuntimeErrors, and the KeyError of a task whose session is not among those that are shown.
pub data View (A : Type 0) : Type 0 where
  view : A → View A
  not_in_index : String → View A
  many_in_flight : List Task → View A
  key_error : View A

infixl 5 ◌>>=◌
abbrev pub ◌>>=◌ : {A B : Type 0} → View A → (A → View B) → View B
view a >>= f = f a
not_in_index sid >>= f = not_in_index sid
many_in_flight ts >>= f = many_in_flight ts
key_error >>= f = key_error

-- The first loop of `execute`: the live session of each pending id.
abbrev pub add_session : String → Option Session → View (Dict Session) → View (Dict Session)
add_session sid none rest = not_in_index sid
add_session sid (some s) rest = rest >>= λ d. view ((sid, s) ∷ d)

unfoldable pub live_sessions : Dict Session → List String → View (Dict Session)
live_sessions index [] = view []
live_sessions index (sid ∷ sids) = add_session sid (lookup sid index) (live_sessions index sids)

-- `QueueEntry(task=task, priority=sessions[task.session_id].priority)`
abbrev pub priced : Task → Option Session → View QueueEntry
priced t none = key_error
priced t (some s) = view (record { task = t; priority = s.priority })

unfoldable pub entry_of : Dict Session → Task → View QueueEntry
entry_of sessions t = priced t (lookup t.session_id sessions)

unfoldable pub entries_of : Dict Session → List Task → View (List QueueEntry)
unfolding entry_of
entries_of sessions [] = view []
entries_of sessions (t ∷ ts) = do
  entry ← entry_of sessions t
  entries ← entries_of sessions ts
  view (entry ∷ entries)

abbrev pub add_flight : Option Task → List Task → List Task
add_flight none ts = ts
add_flight (some t) ts = t ∷ ts

unfoldable pub dispatched : Projection → List String → List Task
dispatched p [] = []
dispatched p (sid ∷ sids) = add_flight (in_flight p sid) (dispatched p sids)

-- `_single_in_flight`
abbrev pub at_most_one : Dict Session → List Task → View (Option QueueEntry)
at_most_one sessions [] = view none
at_most_one sessions (t ∷ []) = entry_of sessions t >>= λ entry. view (some entry)
at_most_one sessions (t ∷ u ∷ ts) = many_in_flight (t ∷ u ∷ ts)

unfoldable pub single_in_flight : Projection → List String → Dict Session → View (Option QueueEntry)
unfolding dispatched entry_of
single_in_flight p pending sessions = at_most_one sessions (dispatched p pending)

-- The key (scheduled_for is None, scheduled_for, -priority, created_at, session id) of `e` is less
-- than that of `f`.
abbrev pub tied_ltb : ScheduledEntry → ScheduledEntry → Bool
tied_ltb e f =
    ltb f.priority e.priority
    || (e.priority == f.priority
        && (ltb e.task.created_at f.task.created_at
            || (e.task.created_at == f.task.created_at
                && str_ltb e.task.session_id f.task.session_id)))

abbrev pub time_ltb : Option ℕ → Option ℕ → Bool → Bool
time_ltb none none tied = tied
time_ltb none (some u) tied = false
time_ltb (some t) none tied = true
time_ltb (some t) (some u) tied = ltb t u || (t == u && tied)

unfoldable pub entry_ltb : ScheduledEntry → ScheduledEntry → Bool
entry_ltb e f = time_ltb e.scheduled_for f.scheduled_for (tied_ltb e f)

-- The sessions that are not eligible, by their ids.
unfoldable pub gated : List Session → List Session → List Session
gated eligible sessions =
    let eligible_ids = map (λ (s : Session). s.session_id) eligible in
    keep (λ s. not (elem s.session_id eligible_ids)) sessions

module _ (z : Zones) (deployment : Option DispatchPolicy) (now : ℕ) where
  unfoldable pub is_eligible : Session → Bool
  is_eligible s =
      can_dispatch z (resolve_effective_policy s.dispatch_policy deployment) now
        s.manual_drain_remaining

  -- `next_window_opening(policy, now)`, with its default of fourteen days.
  abbrev pub opening : DispatchPolicy → Option ℕ
  opening policy = if is_work_window policy then next_window_opening z policy now 14 else none

  abbrev pub reason : DispatchPolicy → ReasonKind
  reason policy = if is_work_window policy then window else manual

  unfoldable pub scheduled_entry : Session → Task → ScheduledEntry
  scheduled_entry s t =
      let policy = resolve_effective_policy s.dispatch_policy deployment in
      record {
        task = t;
        priority = s.priority;
        reason_kind = reason policy;
        scheduled_for = opening policy;
      }

  unfoldable pub gated_entries : (String → List Task) → List Session → List ScheduledEntry
  unfolding scheduled_entry
  gated_entries queue [] = []
  gated_entries queue (s ∷ ss) =
      map (scheduled_entry s) (queue s.session_id) ++ gated_entries queue ss

  -- `_scheduled`
  unfoldable pub scheduled_entries : (String → List Task) → List Session → List ScheduledEntry
  unfolding gated_entries entry_ltb sort_by
  scheduled_entries queue gated = sort_by entry_ltb (gated_entries queue gated)

  -- `GetGlobalQueueUseCase.execute`
  unfoldable pub get_global_queue : Dict Session → Projection → View GlobalQueueOutput
  unfolding live_sessions single_in_flight is_eligible entries_of scheduled_entries gated
      pending_session_ids queued
  get_global_queue index p = do
    let pending = pending_session_ids p
    sessions ← live_sessions index pending
    flight ← single_in_flight p pending sessions
    let eligible = keep is_eligible (values sessions)
    ready ← entries_of sessions (order_ready_candidates eligible (queued p))
    view (record {
      in_flight = flight;
      ready = ready;
      scheduled = scheduled_entries (queued p) (gated eligible (values sessions));
    })
