-- ===== src/Rehydrate.antt =====
-- core/sessions/domain/rehydrate.py and core/orchestration/use_cases/rehydrate_pending_sessions.py:
-- sessions rebuilt from their logs. A field of another type than the entity declares, which the
-- program never writes, is read as one that is missing.
pub mod Settings
pub mod Startup
use mad_edge.Prelude.{
  ℕ, zero, suc, ◌≡◌, Bool, true, false, Option, none, some, List, [], ◌∷◌, ◌++◌, String, str_eq,
  ltb, elem, if◌then◌else◌,
}
use mad_edge.Prelude.Dict.{Dict, lookup, insert, has}
use mad_edge.Json.{Json, null, flag, num, text, arr, obj, Fields, end, field, get}
use mad_edge.Policy.{Zones, DispatchPolicy}
use mad_edge.Policy.Serial.{Parsed, parsed, invalid, crash, ◌>>=◌, Digits, policy_from_dict}
use mad_edge.Ordering.{Given, int, not_int, validate_priority, default_priority}
use mad_edge.Sessions.{Session, SessionStatus}
use mad_edge.Projection.{Projection, pending_session_ids}
use mad_edge.Store.{Formats, Logs, read_events, log_exists, without}

-- event.get(key, default), a text; event.get(key), of each type
abbrev pub text_or : String → Option Json → String
text_or d (some (text s)) = s
text_or d _ = d

abbrev pub optional_text : Option Json → Option String
optional_text (some (text s)) = some s
optional_text _ = none

abbrev pub optional_num : Option Json → Option ℕ
optional_num (some (num n)) = some n
optional_num _ = none

abbrev pub optional_flag : Option Json → Option Bool
optional_flag (some (flag b)) = some b
optional_flag _ = none

-- event.get("provider") or "unknown"
abbrev pub provider_of : Option Json → String
provider_of (some (text s)) = if str_eq s "" then "unknown" else s
provider_of _ = "unknown"

-- The types that the replay reads.
pub data EventKind : Type 0 where
  session_created status_running status_idle session_error session_deleted : EventKind
  policy_updated policy_cleared priority_updated other_kind : EventKind

abbrev pub kind_of_text : String → EventKind
kind_of_text s =
    if str_eq s "session.created"
    then session_created
    else if str_eq s "session.status_running"
    then status_running
    else if str_eq s "session.status_idle"
    then status_idle
    else if str_eq s "session.error"
    then session_error
    else if str_eq s "session.deleted"
    then session_deleted
    else if str_eq s "dispatch_policy.updated"
    then policy_updated
    else if str_eq s "dispatch_policy.cleared"
    then policy_cleared
    else if str_eq s "dispatch_priority.updated"
    then priority_updated
    else other_kind

unfoldable pub kind_of : Option Json → EventKind
kind_of (some (text s)) = kind_of_text s
kind_of _ = other_kind

-- The variables of the loop.
pub record Seen : Type 0 where
  pub agent_name : String
  pub provider : Option String
  pub working_directory : String
  pub model : Option String
  pub effort : Option String
  pub timeout_s : Option ℕ
  pub auto_sync : Option Bool
  pub status : SessionStatus
  pub created_at : Option ℕ
  latest_at : Option ℕ
  pub dispatch_policy : Option DispatchPolicy
  pub priority : ℕ

unfoldable pub nothing_seen : Seen
nothing_seen = record {
  agent_name = "";
  provider = none;
  working_directory = "";
  model = none;
  effort = none;
  timeout_s = none;
  auto_sync = none;
  status = SessionStatus.created;
  created_at = none;
  latest_at = none;
  dispatch_policy = none;
  priority = default_priority;
}

-- What `validate_priority` is called with.
abbrev pub given_of : Option Json → Given
given_of (some (num n)) = int n
given_of _ = not_int

-- `_event_payload`
unfoldable pub event_payload : Fields → Fields
unfolding without
event_payload e = without ("type" ∷ "timestamp" ∷ "session_id" ∷ []) e

abbrev pub set_policy : Seen → Parsed DispatchPolicy → Parsed Seen
set_policy s r = r >>= λ p. parsed (record s { dispatch_policy = some p })

abbrev pub set_priority : Seen → Option ℕ → Parsed Seen
set_priority s none = invalid
set_priority s (some n) = parsed (record s { priority = n })

-- `created_at` is the time of the first `session.created`, `latest_at` the latest time of all.
abbrev pub first_created : EventKind → ℕ → Option ℕ → Option ℕ
first_created session_created t none = some t
first_created _ t at = at

abbrev pub latest_of : ℕ → Option ℕ → Option ℕ
latest_of t none = some t
latest_of t (some u) = if ltb u t then some t else some u

abbrev pub stamped : EventKind → Option ℕ → Seen → Seen
stamped kind none s = s
stamped kind (some t) s = record s {
  created_at = first_created kind t s.created_at;
  latest_at = latest_of t s.latest_at;
}

abbrev pub or_time : Option ℕ → ℕ → ℕ
or_time none t = t
or_time (some u) t = u

unfoldable pub session_of : String → Seen → Session
session_of sid s =
    let created = or_time s.created_at (or_time s.latest_at 0) in
    record {
      session_id = sid;
      agent_name = s.agent_name;
      provider = s.provider;
      workspace = "";
      working_directory = s.working_directory;
      status = s.status;
      base_branch = none;
      model = s.model;
      effort = s.effort;
      timeout_s = s.timeout_s;
      auto_sync = s.auto_sync;
      tokens_to_redact = [];
      dispatch_policy = s.dispatch_policy;
      manual_drain_remaining = 0;
      priority = s.priority;
      last_conversation_id = none;
      created_at = created;
      updated_at = or_time s.latest_at created;
    }

-- `rehydrate_pending_sessions`: the new index and the ids that were rehydrated, its RuntimeError of
-- a session without a log, or an exception of a replay.
pub data Restored : Type 0 where
  restored : Dict Session → List String → Restored
  no_log : String → Restored
  replay_failed : Restored

module _ (f : Formats) (u : Digits) (z : Zones) where
  -- `_parse_timestamp`
  abbrev pub parse_timestamp : Option Json → Option ℕ
  parse_timestamp (some (text s)) = if str_eq s "" then none else f.parse_iso s
  parse_timestamp _ = none

  -- The branches by the type of the event; `invalid` is a `continue`.
  unfoldable pub change : EventKind → Fields → Seen → Parsed Seen
  unfolding get policy_from_dict event_payload validate_priority
  change session_created e s = parsed (record s {
    agent_name = text_or "" (get "agent" e);
    provider = some (provider_of (get "provider" e));
    working_directory = text_or "" (get "working_directory" e);
    model = optional_text (get "model" e);
    effort = optional_text (get "effort" e);
    timeout_s = optional_num (get "timeout_s" e);
    auto_sync = optional_flag (get "auto_sync" e);
  })
  change status_running e s = parsed (record s { status = SessionStatus.running })
  change status_idle e s = parsed (record s { status = SessionStatus.idle })
  change session_error e s = parsed (record s { status = SessionStatus.error })
  change session_deleted e s = parsed (record s { status = SessionStatus.deleted })
  change policy_updated e s = set_policy s (policy_from_dict u z (event_payload e))
  change policy_cleared e s = parsed (record s { dispatch_policy = none })
  change priority_updated e s = set_priority s (validate_priority (given_of (get "priority" e)))
  change other_kind e s = parsed s

  abbrev pub after_change : EventKind → Option ℕ → Seen → Parsed Seen → Parsed Seen
  after_change kind ts old (parsed s) = parsed (stamped kind ts s)
  after_change kind ts old invalid = parsed old
  after_change kind ts old crash = crash

  unfoldable pub replay_event : Fields → Seen → Parsed Seen
  unfolding get kind_of change
  replay_event e s =
      let kind = kind_of (get "type" e) in
      after_change kind (parse_timestamp (get "timestamp" e)) s (change kind e s)

  unfoldable pub replay_events : List Fields → Seen → Parsed Seen
  unfolding replay_event
  replay_events [] s = parsed s
  replay_events (e ∷ es) s = replay_event e s >>= λ s'. replay_events es s'

  unfoldable pub rehydrate_from_events : String → List Fields → Parsed Session
  unfolding replay_events session_of nothing_seen
  rehydrate_from_events sid events =
      replay_events events nothing_seen >>= λ s. parsed (session_of sid s)

  abbrev pub restore_one :
      Logs
      → String
      → Dict Session
      → List String
      → (Dict Session → List String → Restored)
      → Restored
  restore_one logs sid index ids rest =
      if has sid index
      then rest index ids
      else if log_exists logs sid
      then elim (rehydrate_from_events sid (read_events logs sid)) [
        | parsed s ↦ rest (insert sid s index) (ids ++ sid ∷ [])
        | invalid ↦ replay_failed
        | crash ↦ replay_failed
      ]
      else no_log sid

  unfoldable pub restore_each : Logs → List String → Dict Session → List String → Restored
  restore_each logs [] index ids = restored index ids
  restore_each logs (sid ∷ sids) index ids = restore_one logs sid index ids (restore_each logs sids)

  unfoldable pub rehydrate_pending_sessions : Projection → Logs → Dict Session → Restored
  unfolding restore_each rehydrate_from_events pending_session_ids read_events log_exists
  rehydrate_pending_sessions p logs index = restore_each logs (pending_session_ids p) index []
