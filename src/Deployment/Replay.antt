-- ===== src/Deployment/Replay.antt =====
-- The logs of the three settings in core/orchestration/use_cases, as a restart replays them.
use mad_edge.Prelude.{
  ◌≡◌, refl, ap, ◌∙◌, true, false, Option, none, some, List, [], ◌∷◌, ◌++◌, String, str_eq, All,
}
use mad_edge.Json.{text, Fields, field}
use mad_edge.Policy.{Zones, DispatchPolicy, immediate, manual, work_window}
use mad_edge.Policy.Serial.{Parsed, parsed, invalid, crash, ◌>>=◌, Digits, policy_to_dict}
use mad_edge.Policy.Serial.Accepted.{IsWritable}
use mad_edge.Policy.Serial.Trip.{policy_from_dict-policy_to_dict}
use mad_edge.Store.{Formats, Logs, read_events, append_event, event_line, meta_keys, without}
use mad_edge.Store.Append.{AllNew, event_line-append, read_events-append_event}
use mad_edge.Deployment.{
  deployment_session_id, deployment_model_session_id, deployment_effort_session_id, Deployment,
  Mark, replay_default, replay_defaults, set_deployment_dispatch_policy, set_deployment_model,
  clear_deployment_model, set_deployment_effort, clear_deployment_effort, replay_policy,
  replay_policies,
}

abbrev reserved : List String
reserved = deployment_session_id ∷ deployment_model_session_id ∷ deployment_effort_session_id ∷ []

-- What may happen to the settings and to the logs: one of the five operations, on a policy of the
-- form that the routes let through, or an event of another session.
pub data Step (f : Formats) (z : Zones) (d : Deployment) : Deployment → Type 0 where
  sets_policy :
      (m : Mark) (p : DispatchPolicy)
      → IsWritable z p
      → Step f z d (set_deployment_dispatch_policy f m p d)
  sets_model : (m : Mark) (model : String) → Step f z d (set_deployment_model f m model d)
  clears_model : (m : Mark) → Step f z d (clear_deployment_model f m d)
  sets_effort : (m : Mark) (effort : String) → Step f z d (set_deployment_effort f m effort d)
  clears_effort : (m : Mark) → Step f z d (clear_deployment_effort f m d)
  logs_other :
      (m : Mark) (sid type : String) (body : Fields)
      → All (λ (r : String). str_eq sid r ≡ false) reserved
      → Step f z d (record d { logs = append_event f sid m.id type m.at body d.logs })

pub data Reach (f : Formats) (z : Zones) (d : Deployment) : Deployment → Type 0 where
  here : Reach f z d d
  next : {e e' : Deployment} → Reach f z d e → Step f z e e' → Reach f z d e'

-- No setting was ever made.
abbrev pub unset : Logs → Deployment
unset logs = record { default = none; default_model = none; default_effort = none; logs = logs }

pub record IsFresh (logs : Logs) : Type 0 where
  pub no_policy : read_events logs deployment_session_id ≡ []
  pub no_model : read_events logs deployment_model_session_id ≡ []
  pub no_effort : read_events logs deployment_effort_session_id ≡ []

replay_defaults-snoc :
    (updated cleared key : String) (es : List Fields) (e : Fields) (default : Option String)
    → replay_defaults updated cleared key (es ++ e ∷ []) default
      ≡ replay_default updated cleared key e (replay_defaults updated cleared key es default)
unfolding replay_defaults
replay_defaults-snoc updated cleared key [] e default = refl
replay_defaults-snoc updated cleared key (x ∷ es) e default =
    replay_defaults-snoc updated cleared key es e (replay_default updated cleared key x default)

module _ (f : Formats) (u : Digits) (z : Zones) where
  >>=-parsed : (m : Parsed (Option DispatchPolicy)) → (m >>= λ d. parsed d) ≡ m
  >>=-parsed (parsed d) = refl
  >>=-parsed invalid = refl
  >>=-parsed crash = refl

  pub replay_policies-snoc :
      (es : List Fields) (e : Fields) (default : Option DispatchPolicy)
      → replay_policies u z (es ++ e ∷ []) default
        ≡ (replay_policies u z es default >>= λ d. replay_policy u z e d)
  unfolding replay_policies
  replay_policies-snoc [] e default = >>=-parsed (replay_policy u z e default)
  replay_policies-snoc (x ∷ es) e default =
      go (replay_policy u z x default) (λ d. replay_policies-snoc es e d)
    where
      go :
          (r : Parsed (Option DispatchPolicy))
          → ((d : Option DispatchPolicy)
              → replay_policies u z (es ++ e ∷ []) d
                ≡ (replay_policies u z es d >>= λ o. replay_policy u z e o))
          → (r >>= λ d. replay_policies u z (es ++ e ∷ []) d)
            ≡ ((r >>= λ d. replay_policies u z es d) >>= λ o. replay_policy u z e o)
      go (parsed d) ih = ih d
      go invalid ih = refl
      go crash ih = refl

  -- The replay of the three reserved logs gives the three settings.
  pub record IsReplayed (d : Deployment) : Type 0 where
    pub policy :
        replay_policies u z (read_events d.logs deployment_session_id) none ≡ parsed d.default
    pub model :
        replay_defaults "model.default.updated" "model.default.cleared" "model"
          (read_events d.logs deployment_model_session_id)
          none
        ≡ d.default_model
    pub effort :
        replay_defaults "effort.default.updated" "effort.default.cleared" "effort"
          (read_events d.logs deployment_effort_session_id)
          none
        ≡ d.default_effort

  pub policy_line :
      (m : Mark) (p : DispatchPolicy) (old : Option DispatchPolicy)
      → IsWritable z p
      → replay_policy u z
          (event_line f m.id "dispatch_policy.default.updated" m.at (policy_to_dict p))
          old
        ≡ parsed (some p)
  policy_line m p old h =
      ap (λ (e : Fields). replay_policy u z e old)
        (event_line-append f m.id "dispatch_policy.default.updated" m.at (policy_to_dict p)
          (own_keys p))
      ∙ read_back p h
    where
      own_keys : (p : DispatchPolicy) → AllNew meta_keys (policy_to_dict p)
      own_keys immediate = unfold policy_to_dict in (refl, tt)
      own_keys manual = unfold policy_to_dict in (refl, tt)
      own_keys (work_window ws) = unfold policy_to_dict in (refl, (refl, tt))

      stripped :
          (p : DispatchPolicy)
          → without ("type" ∷ "timestamp" ∷ "session_id" ∷ "event_id" ∷ []) (policy_to_dict p)
            ≡ policy_to_dict p
      stripped immediate = unfold policy_to_dict without in refl
      stripped manual = unfold policy_to_dict without in refl
      stripped (work_window ws) = unfold policy_to_dict without in refl

      read_back :
          (p : DispatchPolicy)
          → IsWritable z p
          → replay_policy u z
              (field "event_id" (text (f.uuid_text m.id)) (
                field "type"
                  (text "dispatch_policy.default.updated")
                  (field "timestamp" (text (f.iso_text m.at)) (policy_to_dict p))))
              old
            ≡ parsed (some p)
      read_back p h =
          unfold replay_policy in rw (stripped p, policy_from_dict-policy_to_dict u z p h) refl

  -- An event at the end of one log, as another reserved log and as that log see it.
  seen_elsewhere :
      (logs : Logs) (sid type : String) (m : Mark) (body : Fields) (other : String)
      → str_eq sid other ≡ false
      → read_events (append_event f sid m.id type m.at body logs) other ≡ read_events logs other
  seen_elsewhere logs sid type m body other ne =
      rw (read_events-append_event f logs sid m.id type m.at body other, ne) refl

  pub seen_there :
      (logs : Logs) (sid type : String) (m : Mark) (body : Fields)
      → str_eq sid sid ≡ true
      → read_events (append_event f sid m.id type m.at body logs) sid
        ≡ read_events logs sid ++ event_line f m.id type m.at body ∷ []
  seen_there logs sid type m body eq =
      rw (read_events-append_event f logs sid m.id type m.at body sid, eq) refl

  -- The last event of a log decides its default.
  pub last_default :
      (updated cleared key sid : String) (logs : Logs) (m : Mark) (type : String) (body : Fields)
      (new : Option String)
      → str_eq sid sid ≡ true
      → ((old : Option String)
          → replay_default updated cleared key (event_line f m.id type m.at body) old ≡ new)
      → replay_defaults updated cleared key
          (read_events (append_event f sid m.id type m.at body logs) sid)
          none
        ≡ new
  last_default updated cleared key sid logs m type body new eq decides =
      ap (λ (es : List Fields). replay_defaults updated cleared key es none)
        (seen_there logs sid type m body eq)
      ∙ replay_defaults-snoc updated cleared key (read_events logs sid) _ none
      ∙ decides (replay_defaults updated cleared key (read_events logs sid) none)

  pub same_policy :
      (logs : Logs) (sid type : String) (m : Mark) (body : Fields) (default : Option DispatchPolicy)
      → str_eq sid deployment_session_id ≡ false
      → replay_policies u z (read_events logs deployment_session_id) none ≡ parsed default
      → replay_policies u z
          (read_events (append_event f sid m.id type m.at body logs) deployment_session_id)
          none
        ≡ parsed default
  same_policy logs sid type m body default ne h =
      ap (λ (es : List Fields). replay_policies u z es none)
        (seen_elsewhere logs sid type m body deployment_session_id ne)
      ∙ h

  pub same_default :
      (updated cleared key other : String) (logs : Logs) (sid type : String) (m : Mark)
      (body : Fields) (default : Option String)
      → str_eq sid other ≡ false
      → replay_defaults updated cleared key (read_events logs other) none ≡ default
      → replay_defaults updated cleared key
          (read_events (append_event f sid m.id type m.at body logs) other)
          none
        ≡ default
  same_default updated cleared key other logs sid type m body default ne h =
      ap (λ (es : List Fields). replay_defaults updated cleared key es none)
        (seen_elsewhere logs sid type m body other ne)
      ∙ h
