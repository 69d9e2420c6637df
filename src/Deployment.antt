-- ===== src/Deployment.antt =====
-- core/orchestration/use_cases: deployment_dispatch_policy.py, deployment_model_config.py and
-- deployment_effort_config.py. The three settings of the whole deployment, each with a reserved log
-- that is replayed at startup. A default in a log that is no text, which the program never writes, is
-- read as one that is missing.
pub mod Replay
pub mod Restart
use mad_edge.Prelude.{
  ℕ, ◌≡◌, Bool, true, false, Option, none, some, List, [], ◌∷◌, String, str_eq, if◌then◌else◌,
}
use mad_edge.Json.{Json, text, Fields, end, field, get}
use mad_edge.Policy.{Zones, DispatchPolicy, immediate}
use mad_edge.Policy.Serial.{
  Parsed, parsed, invalid, crash, ◌>>=◌, Digits, policy_to_dict, policy_from_dict,
}
use mad_edge.Tasks.{or_default}
use mad_edge.Store.{Formats, Logs, read_events, log_exists, append_event, without}
use mad_edge.Rehydrate.{optional_text}

-- `DEPLOYMENT_SESSION_ID` and its likes
abbrev pub deployment_session_id : String
deployment_session_id = "__deployment__"

abbrev pub deployment_model_session_id : String
deployment_model_session_id = "__deployment_model__"

abbrev pub deployment_effort_session_id : String
deployment_effort_session_id = "__deployment_effort__"

-- The three holders, `DeploymentDispatchPolicy`, `DeploymentModelConfig` and
-- `DeploymentEffortConfig`, with the logs.
pub record Deployment : Type 0 where
  pub default : Option DispatchPolicy
  pub default_model : Option String
  pub default_effort : Option String
  pub logs : Logs

-- The id and the time of the event that an operation emits.
pub record Mark : Type 0 where
  pub id : ℕ
  pub at : ℕ

-- The `execute` of the getters.
unfoldable get_deployment_dispatch_policy : Deployment → DispatchPolicy
get_deployment_dispatch_policy d = or_default d.default immediate

unfoldable get_deployment_model : Deployment → Option String
get_deployment_model d = d.default_model

unfoldable get_deployment_effort : Deployment → Option String
get_deployment_effort d = d.default_effort

abbrev pub is_text : String → Option Json → Bool
is_text k (some (text s)) = str_eq s k
is_text k _ = false

-- One turn of the loops of `bootstrap_deployment_model_config` and of its likeness for the effort.
unfoldable pub replay_default : String → String → String → Fields → Option String → Option String
unfolding get
replay_default updated cleared key e default =
    let type = get "type" e in
    if is_text updated type
    then optional_text (get key e)
    else if is_text cleared type
    then none
    else default

unfoldable pub replay_defaults :
    String → String → String → List Fields → Option String → Option String
unfolding replay_default
replay_defaults updated cleared key [] default = default
replay_defaults updated cleared key (e ∷ es) default =
    replay_defaults updated cleared key es (replay_default updated cleared key e default)

unfoldable pub bootstrap_deployment_model_config : Logs → Option String → Option String
unfolding replay_defaults log_exists read_events
bootstrap_deployment_model_config logs default =
    if log_exists logs deployment_model_session_id
    then replay_defaults "model.default.updated" "model.default.cleared" "model"
        (read_events logs deployment_model_session_id) default
    else default

unfoldable pub bootstrap_deployment_effort_config : Logs → Option String → Option String
unfolding replay_defaults log_exists read_events
bootstrap_deployment_effort_config logs default =
    if log_exists logs deployment_effort_session_id
    then replay_defaults "effort.default.updated" "effort.default.cleared" "effort"
        (read_events logs deployment_effort_session_id) default
    else default

module _ (f : Formats) where
  -- The `execute` of the setters and of `Clear…`.
  unfoldable pub set_deployment_dispatch_policy : Mark → DispatchPolicy → Deployment → Deployment
  unfolding append_event policy_to_dict
  set_deployment_dispatch_policy mark policy d = record d {
    default = some policy;
    logs =
        append_event f deployment_session_id mark.id "dispatch_policy.default.updated" mark.at
          (policy_to_dict policy) d.logs;
  }

  unfoldable pub set_deployment_model : Mark → String → Deployment → Deployment
  unfolding append_event
  set_deployment_model mark model d = record d {
    default_model = some model;
    logs =
        append_event f deployment_model_session_id mark.id "model.default.updated" mark.at
          (field "model" (text model) end) d.logs;
  }

  unfoldable pub clear_deployment_model : Mark → Deployment → Deployment
  unfolding append_event
  clear_deployment_model mark d = record d {
    default_model = none;
    logs =
        append_event f deployment_model_session_id mark.id "model.default.cleared" mark.at end
          d.logs;
  }

  unfoldable pub set_deployment_effort : Mark → String → Deployment → Deployment
  unfolding append_event
  set_deployment_effort mark effort d = record d {
    default_effort = some effort;
    logs =
        append_event f deployment_effort_session_id mark.id "effort.default.updated" mark.at
          (field "effort" (text effort) end) d.logs;
  }

  unfoldable pub clear_deployment_effort : Mark → Deployment → Deployment
  unfolding append_event
  clear_deployment_effort mark d = record d {
    default_effort = none;
    logs =
        append_event f deployment_effort_session_id mark.id "effort.default.cleared" mark.at end
          d.logs;
  }

module _ (u : Digits) (z : Zones) where
  -- One turn of the loop of `bootstrap_deployment_policy`; any other exception ends it.
  abbrev policy_or_old :
      Parsed DispatchPolicy → Option DispatchPolicy → Parsed (Option DispatchPolicy)
  policy_or_old (parsed p) default = parsed (some p)
  policy_or_old invalid default = parsed default
  policy_or_old crash default = crash

  unfoldable pub replay_policy : Fields → Option DispatchPolicy → Parsed (Option DispatchPolicy)
  unfolding get policy_from_dict without
  replay_policy e default =
      if is_text "dispatch_policy.default.updated" (get "type" e)
      then policy_or_old
          (policy_from_dict u z (without ("type" ∷ "timestamp" ∷ "session_id" ∷ "event_id" ∷ []) e))
          default
      else parsed default

  unfoldable pub replay_policies :
      List Fields → Option DispatchPolicy → Parsed (Option DispatchPolicy)
  unfolding replay_policy
  replay_policies [] default = parsed default
  replay_policies (e ∷ es) default = replay_policy e default >>= λ d. replay_policies es d

  unfoldable pub bootstrap_deployment_policy :
      Logs → Option DispatchPolicy → Parsed (Option DispatchPolicy)
  unfolding replay_policies log_exists read_events
  bootstrap_deployment_policy logs default =
      if log_exists logs deployment_session_id
      then replay_policies (read_events logs deployment_session_id) default
      else parsed default
