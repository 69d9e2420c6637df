-- ===== src/EventLog.antt =====
-- core/events: ports/event_log_query.py, use_cases/query_events.py and use_cases/stream_events.py, with
-- adapters/outbound/events/jsonl_event_log_query.py and the filter of in_memory_event_bus.py.
pub mod Sorted
pub mod Cursor
pub mod Paging
pub mod Replay
pub mod Subscription
pub mod Live
pub mod Feeds
pub mod Stream
pub mod Ids
use mad_edge.Prelude.{
  ℕ, zero, suc, ◌+◌, ◌≡◌, Bool, true, false, not, ◌&&◌, ◌||◌, Option, none, some, List, [], ◌∷◌,
  ◌++◌, map, String, str_eq, str_ltb, elem, keep, length, ltb, leb, ◌==◌, min, max, if◌then◌else◌,
  take,
}
use mad_edge.Prelude.Dict.{Dict, keys}
use mad_edge.Prelude.Sorting.{sort_by}
use mad_edge.Json.{Json, text, Fields, get}
use mad_edge.Deployment.{is_text}
use mad_edge.Events.{max_queue_size}
use mad_edge.Store.{Formats, Logs, read_events, StoredEvent, event_from_persisted, path_ltb}

pub record EventQuery : Type 0 where
  pub session_id : Option String
  pub kind : Option String
  pub session_ids_for_agent : Option (List String)
  pub since : Option ℕ
  pub after_event_id : Option ℕ
  pub limit : ℕ

-- The tests of `_matches`, each with the field of the query that switches it on.
abbrev pub same_session : Option String → StoredEvent → Bool
same_session none e = true
same_session (some sid) e = str_eq e.session_id sid

abbrev pub same_kind : Option String → StoredEvent → Bool
same_kind none e = true
same_kind (some kind) e = is_text kind (some e.type)

abbrev pub among_sessions : Option (List String) → StoredEvent → Bool
among_sessions none e = true
among_sessions (some sids) e = elem e.session_id sids

abbrev not_before : Option ℕ → StoredEvent → Bool
not_before none e = true
not_before (some t) e = not (ltb e.timestamp t)

abbrev pub id_after : ℕ → Option ℕ → Bool
id_after cursor none = false
id_after cursor (some id) = ltb cursor id

abbrev pub after_cursor : Option ℕ → StoredEvent → Bool
after_cursor none e = true
after_cursor (some cursor) e = id_after cursor e.event_id

unfoldable pub matches : EventQuery → StoredEvent → Bool
matches q e =
    same_session q.session_id e
    && (same_kind q.kind e
        && (among_sessions q.session_ids_for_agent e
            && (not_before q.since e && after_cursor q.after_event_id e)))

module _ (f : Formats) where
  -- `_sort_key`: the textual id, "" for none, then the time.
  abbrev pub id_text : Option ℕ → String
  id_text none = ""
  id_text (some id) = f.uuid_text id

  unfoldable pub key_ltb : StoredEvent → StoredEvent → Bool
  key_ltb d e =
      str_ltb (id_text d.event_id) (id_text e.event_id)
      || (str_eq (id_text d.event_id) (id_text e.event_id) && ltb d.timestamp e.timestamp)

  -- `_all_events`; `none` is the ValueError of a line that cannot be read.
  abbrev read_line : Option StoredEvent → Option (List StoredEvent) → Option (List StoredEvent)
  read_line (some e) (some es) = some (e ∷ es)
  read_line _ _ = none

  abbrev read_lines : String → List Fields → Option (List StoredEvent) → Option (List StoredEvent)
  read_lines sid [] rest = rest
  read_lines sid (raw ∷ lines) rest =
      read_line (event_from_persisted f raw sid) (read_lines sid lines rest)

  unfoldable read_logs : Logs → List String → Option (List StoredEvent)
  unfolding event_from_persisted read_events
  read_logs logs [] = some []
  read_logs logs (sid ∷ sids) = read_lines sid (read_events logs sid) (read_logs logs sids)

  unfoldable all_events : Logs → Option (List StoredEvent)
  unfolding read_logs sort_by
  all_events logs = read_logs logs (sort_by path_ltb (keys logs))

  -- `query`, of the events of the log.
  unfoldable pub query : EventQuery → List StoredEvent → List StoredEvent
  unfolding matches key_ltb sort_by
  query q events = take q.limit (sort_by key_ltb (keep (matches q) events))

  -- `session_ids_for_agent`
  unfoldable pub session_ids_for_agent : String → List StoredEvent → List String
  unfolding get
  session_ids_for_agent agent_name events =
      map (λ (e : StoredEvent). e.session_id)
        (keep
          (λ (e : StoredEvent).
            is_text "session.created" (some e.type) && is_text agent_name (get "agent" e.body))
          events)

pub record QueryEventsInput : Type 0 where
  pub session_id : Option String
  pub kind : Option String
  pub agent : Option String
  pub since : Option ℕ
  pub after_event_id : Option ℕ
  pub limit : ℕ

pub record QueryEventsOutput : Type 0 where
  pub events : List StoredEvent
  pub next_cursor : Option ℕ

abbrev pub max_limit : ℕ
max_limit = 1000

-- `max(1, min(payload.limit, MAX_LIMIT))`; a limit below 0 is 0.
unfoldable pub effective_limit : ℕ → ℕ
effective_limit limit = max 1 (min limit max_limit)

-- page[-1].event_id
abbrev pub last_id : List StoredEvent → Option ℕ
last_id [] = none
last_id (e ∷ []) = e.event_id
last_id (e ∷ d ∷ es) = last_id (d ∷ es)

module _ (f : Formats) where
  abbrev pub agent_sessions : Option String → List StoredEvent → Option (List String)
  agent_sessions none events = none
  agent_sessions (some agent) events = some (session_ids_for_agent f agent events)

  -- `QueryEventsUseCase.execute`
  unfoldable pub query_events : QueryEventsInput → List StoredEvent → QueryEventsOutput
  unfolding query effective_limit session_ids_for_agent
  query_events payload log =
      let most = effective_limit payload.limit in
      let q : EventQuery = record {
        session_id = payload.session_id;
        kind = payload.kind;
        session_ids_for_agent = agent_sessions payload.agent log;
        since = payload.since;
        after_event_id = payload.after_event_id;
        limit = suc most;
      } in
      let events = query f q log in
      let page = take most events in
      if ltb most (length events)
      then record { events = page; next_cursor = last_id page }
      else record { events = events; next_cursor = none }
