-- ===== src/Examples/Stores.antt =====
-- Examples of the logs, of what is read back from them, and of the view of the global queue.
use mad_edge.Prelude.{
  ◌<◌, ◌*◌, ◌⊎◌, true, false, List, any, starts_with, ℕ, ◌≡◌, refl, none, some, [], ◌∷◌, ◌++◌, map,
  String, str_eq, str_eq-cases, inl, inr, Member, if◌then◌else◌, arith,
}
use mad_edge.Prelude.Dict.{Dict, lookup, insert}
use mad_edge.Prelude.Sorting.{IsSorted}
use mad_edge.Json.{get, Fields, cons, nil, arr, obj, num, field, end, text}
use mad_edge.Policy.{mon, DispatchPolicy, work_window, can_dispatch, resolve_effective_policy}
use mad_edge.Policy.Serial.{
  parse_windows, window_from_dict, parse_zone, parse_days, parse_hhmm, hhmm_codes, int_of_pair,
  within, day_set, weekday_of, weekday_text, same_day, Parsed, parsed, policy_to_dict,
  policy_from_dict,
}
use mad_edge.Policy.Serial.Accepted.{IsWritable, policy_from_dict-IsWritable}
use mad_edge.Policy.Serial.Trip.{policy_from_dict-policy_to_dict}
use mad_edge.Ordering.{default_priority, order_ready_candidates}
use mad_edge.Ordering.Least.{first_of}
use mad_edge.Sessions.{Session, SessionStatus}
use mad_edge.Projection.{pending_session_ids, queued, in_flight, apply_all, apply, empty}
use mad_edge.Dispatcher.{find_next_dispatchable}
use mad_edge.Store.{
  Logs, read_events, append_event, event_line, event_from_persisted, purge_expired_logs,
}
use mad_edge.Store.Append.{append_event_lem}
use mad_edge.Store.Purge.{IsOld, IsRecent, last_time, purge_expired_logs_lem}
use mad_edge.Rehydrate.{restored, rehydrate_from_events, rehydrate_pending_sessions}
use mad_edge.Tasks.{or_default}
use mad_edge.Rehydrate.Settings.{
  latest, status_set, policy_set, priority_set, rehydrate_from_events-settings,
}
use mad_edge.Rehydrate.Startup.{rehydrate_pending_sessions-AllLive}
use mad_edge.Deployment.{
  Deployment, Mark, set_deployment_dispatch_policy, set_deployment_model,
  bootstrap_deployment_policy, bootstrap_deployment_model_config,
  bootstrap_deployment_effort_config,
}
use mad_edge.Deployment.Replay.{here, next, sets_policy, sets_model, unset}
use mad_edge.Deployment.Restart.{Reach-bootstrap}
use mad_edge.GlobalQueue.{
  QueueEntry, ReasonKind, ScheduledEntry, GlobalQueueOutput, view, entry_ltb, get_global_queue,
}
use mad_edge.GlobalQueue.Live.{IsIndex}
use mad_edge.GlobalQueue.Agreement.{get_global_queue-first}
use mad_edge.GlobalQueue.Buckets.{Explains, get_global_queue-scheduled}
use mad_edge.GlobalQueue.Errors.{AllLive, CanRender, IsFiled, get_global_queue-CanRender}
use mad_edge.Examples.{utc, stamp, night, idle, session, projection, task}
use mad_edge.Examples.Formats.{formats, ascii}

abbrev by_night : DispatchPolicy
by_night = work_window (night ∷ [])

by_night-IsWritable : IsWritable utc by_night
by_night-IsWritable = (
  λ e. cc,
  (
    record {
      starts = (omega arith, omega arith);
      ends = (omega arith, omega arith);
      zoned = refl;
      named = refl;
      some_day = refl;
    },
    tt,
  ),
)

policy_from_dict-policy_to_dict_example :
    policy_from_dict ascii utc (policy_to_dict by_night) ≡ parsed by_night
policy_from_dict-policy_to_dict_example =
    policy_from_dict-policy_to_dict ascii utc by_night by_night-IsWritable

-- A window from 22:00 to 06:00 on Mondays, as a client sends it.
abbrev sent : Fields
sent = field "kind" (text "work_window") (
    field "windows"
      (arr (
        cons
          (obj (
            field "start" (text "22:00") (
              field "end" (text "06:00")
                (field "timezone" (text "UTC") (field "days" (arr (cons (text "mon") nil)) end)))))
          nil))
      end)

abbrev received : DispatchPolicy
received = work_window (
    record {
      start = 22 * 3_600_000_000;
      end = 6 * 3_600_000_000;
      timezone = "UTC";
      days = λ e. any (λ x. same_day x e) (mon ∷ []);
    }
    ∷ [])

policy_from_dict-IsWritable_example : IsWritable utc received
policy_from_dict-IsWritable_example = policy_from_dict-IsWritable ascii utc sent received read
  where
    read : policy_from_dict ascii utc sent ≡ parsed received
    read =
        unfold policy_from_dict parse_windows window_from_dict get parse_zone parse_days parse_hhmm
          hhmm_codes int_of_pair within day_set weekday_of weekday_text in
        refl

abbrev logs : Logs
logs = append_event formats "a" 1 "session.created" 5 (field "agent" (text "coder") end) []

append_event_lem_example :
    ((other : String)
      → read_events
          (append_event formats "a" 7 "agent.output" 9 (field "text" (text "hi") end) logs)
          other
        ≡ (if str_eq "a" other
            then read_events logs other
              ++ event_line formats 7 "agent.output" 9 (field "text" (text "hi") end) ∷ []
            else read_events logs other))
    × (event_from_persisted formats
          (event_line formats 7 "agent.output" 9 (field "text" (text "hi") end))
          "a"
        ≡ some (record {
          event_id = some 7;
          session_id = "a";
          type = text "agent.output";
          body = field "text" (text "hi") end;
          timestamp = 9;
        }))
append_event_lem_example =
    append_event_lem formats logs "a" 7 "agent.output" 9 (field "text" (text "hi") end) (refl, tt)

purge_expired_logs_lem_example :
    ((0 < 1)
      → (starts_with "a" "__" ≡ false)
      → IsOld 172_800_000_000 1 (last_time formats (read_events logs "a"))
      → lookup "a" (purge_expired_logs formats 172_800_000_000 1 logs).0 ≡ none)
    × (◌≡◌ {A = ℕ} 1 0
          ⊎ ((starts_with "a" "__" ≡ true)
              ⊎ IsRecent 172_800_000_000 1 (last_time formats (read_events logs "a")))
        → lookup "a" (purge_expired_logs formats 172_800_000_000 1 logs).0 ≡ lookup "a" logs)
purge_expired_logs_lem_example = purge_expired_logs_lem formats 172_800_000_000 1 logs "a"

abbrev rebuilt : Session
rebuilt = record (session "a" none 1) {
  provider = some "unknown";
  workspace = "";
  created_at = 5;
  updated_at = 5;
}

-- A session that ran, was given a policy and a priority, was idle again and lost its policy.
abbrev line : String → Fields → Fields
line type data' = field "type" (text type) data'

abbrev history : List Fields
history =
    line "session.created" (field "agent" (text "coder") end)
    ∷ line "session.status_running" end
    ∷ line "dispatch_policy.updated" (field "kind" (text "manual") end)
    ∷ line "dispatch_priority.updated" (field "priority" (num 4) end)
    ∷ line "session.status_idle" end
    ∷ line "dispatch_policy.cleared" end
    ∷ line "dispatch_priority.updated" (field "priority" (text "high") end)
    ∷ []

abbrev or_rebuilt : Parsed Session → Session
or_rebuilt (parsed s) = s
or_rebuilt _ = rebuilt

abbrev after_history : Session
after_history = or_rebuilt (rehydrate_from_events formats ascii utc "a" history)

rehydrate_from_events-settings_example :
    (after_history.status ≡ or_default (latest status_set history) SessionStatus.created)
    × (after_history.dispatch_policy ≡ or_default (latest (policy_set ascii utc) history) none)
    × (after_history.priority ≡ or_default (latest priority_set history) default_priority)
unfolding rehydrate_from_events
rehydrate_from_events-settings_example =
    rehydrate_from_events-settings formats ascii utc "a" history after_history refl

abbrev full : Logs
full = append_event formats "b" 2 "session.created" 6 (field "agent" (text "coder") end) logs

abbrev restarted : Dict Session
restarted =
    ("a", rebuilt) ∷ ("b", record rebuilt { session_id = "b"; created_at = 6; updated_at = 6 }) ∷ []

rehydrate_pending_sessions-AllLive_example :
    AllLive restarted (pending_session_ids projection)
    × ((sid : String) (s : Session) → lookup sid [] ≡ some s → lookup sid restarted ≡ some s)
    × (IsIndex [] → IsIndex restarted)
unfolding rehydrate_pending_sessions projection apply_all append_event lookup insert read_events
    apply empty
rehydrate_pending_sessions-AllLive_example =
    rehydrate_pending_sessions-AllLive formats ascii utc projection full [] restarted
      ("a" ∷ "b" ∷ []) done
  where
    done :
        rehydrate_pending_sessions formats ascii utc projection full []
        ≡ restored restarted ("a" ∷ "b" ∷ [])
    done = refl

abbrev mark : ℕ → Mark
mark n = record { id = n; at = n }

abbrev settled : Deployment
settled =
    set_deployment_model formats (mark 2) "opus"
      (set_deployment_dispatch_policy formats (mark 1) by_night (unset []))

Reach-bootstrap_example :
    (bootstrap_deployment_policy ascii utc settled.logs none ≡ parsed settled.default)
    × (bootstrap_deployment_model_config settled.logs none ≡ settled.default_model)
    × (bootstrap_deployment_effort_config settled.logs none ≡ settled.default_effort)
Reach-bootstrap_example =
    Reach-bootstrap formats ascii utc [] settled
      (record { no_policy = nothing _; no_model = nothing _; no_effort = nothing _ })
      (next (next here (sets_policy (mark 1) by_night by_night-IsWritable))
        (sets_model (mark 2) "opus"))
  where
    nothing : (sid : String) → read_events [] sid ≡ []
    nothing sid = unfold read_events lookup in refl

-- The view of the idle dispatcher: "a" may dispatch, and "b" waits for a trigger.
abbrev shown : GlobalQueueOutput
shown = record {
  in_flight = none;
  ready =
      record { task = task 1 "a" 10; priority = 1 }
      ∷ record { task = task 2 "a" 11; priority = 1 }
      ∷ [];
  scheduled =
      record {
        task = task 3 "b" 12;
        priority = 7;
        reason_kind = ReasonKind.manual;
        scheduled_for = none;
      }
      ∷ [];
}

renders : get_global_queue utc none 20 idle.sessions projection ≡ view shown
unfolding get_global_queue idle projection apply_all lookup insert order_ready_candidates in_flight
    apply empty can_dispatch resolve_effective_policy
renders = refl

idle-IsIndex : IsIndex idle.sessions
unfolding idle lookup
idle-IsIndex = (refl, refl, (refl, refl, tt))

get_global_queue-first_example :
    find_next_dispatchable utc stamp (some 20) idle
    ≡ first_of (map (λ (x : QueueEntry). x.task) shown.ready)
unfolding idle
get_global_queue-first_example = get_global_queue-first utc stamp 20 idle shown idle-IsIndex renders

get_global_queue-scheduled_example :
    ((e : ScheduledEntry)
      → Member e shown.scheduled
      → Explains utc none 20 idle.sessions projection e)
    × ((e : ScheduledEntry)
        → Explains utc none 20 idle.sessions projection e
        → Member e shown.scheduled)
    × IsSorted entry_ltb shown.scheduled
get_global_queue-scheduled_example =
    get_global_queue-scheduled utc none 20 idle.sessions projection shown idle-IsIndex renders

filed : IsFiled projection
unfolding projection apply_all apply empty queued in_flight lookup insert
filed = record {
  queues = λ sid. elim (str_eq-cases "a" sid) [
    | inl (e, same) ↦ rw e (same, (same, tt))
    | inr (e, ne) ↦ elim (str_eq-cases "b" sid) [
      | inl (f, same) ↦ rw (e, f) (same, tt)
      | inr (f, other) ↦ rw (e, f) tt
    ]
  ];
  flights = λ sid t e. cc;
}

get_global_queue-CanRender_example :
    (CanRender idle.sessions projection
      → (out : GlobalQueueOutput) × (get_global_queue utc none 20 idle.sessions projection
          ≡ view out))
    × ((out : GlobalQueueOutput)
        → get_global_queue utc none 20 idle.sessions projection ≡ view out
        → CanRender idle.sessions projection)
get_global_queue-CanRender_example =
    get_global_queue-CanRender utc none 20 idle.sessions projection idle-IsIndex filed
