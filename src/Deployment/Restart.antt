-- ===== src/Deployment/Restart.antt =====
-- The settings of the deployment in core/orchestration/use_cases, across a restart.
use mad_edge.Prelude.{
  ◌≡◌, refl, sym, ap, ◌∙◌, true, false, Option, none, some, List, [], String, if◌then◌else◌,
}
use mad_edge.Prelude.Dict.{lookup}
use mad_edge.Json.{text, Fields, end, field, get}
use mad_edge.Policy.{Zones, DispatchPolicy}
use mad_edge.Policy.Serial.{Parsed, parsed, ◌>>=◌, Digits, policy_to_dict}
use mad_edge.Store.{
  Formats, Logs, lines_or_none, read_events, log_exists, event_line, update_fields,
}
use mad_edge.Deployment.{
  deployment_session_id, deployment_model_session_id, deployment_effort_session_id, Deployment,
  replay_default, replay_defaults, bootstrap_deployment_model_config,
  bootstrap_deployment_effort_config, set_deployment_dispatch_policy, set_deployment_model,
  clear_deployment_model, set_deployment_effort, clear_deployment_effort, replay_policy,
  replay_policies, bootstrap_deployment_policy,
}
use mad_edge.Deployment.Replay.{
  Step, sets_policy, sets_model, clears_model, sets_effort, clears_effort, logs_other, Reach, here,
  next, unset, IsFresh, replay_policies-snoc, IsReplayed, policy_line, seen_there, last_default,
  same_policy, same_default,
}

module _ (f : Formats) (u : Digits) (z : Zones) where
  Step-IsReplayed : {d e : Deployment} → Step f z d e → IsReplayed f u z d → IsReplayed f u z e
  unfolding set_deployment_dispatch_policy set_deployment_model clear_deployment_model
      set_deployment_effort clear_deployment_effort replay_default get event_line update_fields
  Step-IsReplayed {d} (sets_policy m p h) r = record {
    policy =
        ap (λ (es : List Fields). replay_policies u z es none)
          (seen_there f u z d.logs deployment_session_id "dispatch_policy.default.updated" m
            (policy_to_dict p) refl)
        ∙ replay_policies-snoc f u z (read_events d.logs deployment_session_id)
            (event_line f m.id "dispatch_policy.default.updated" m.at (policy_to_dict p)) none
        ∙ ap
            (λ (x : Parsed (Option DispatchPolicy)). x >>= λ o.
              replay_policy u z
                (event_line f m.id "dispatch_policy.default.updated" m.at (policy_to_dict p)) o)
            r.policy
        ∙ policy_line f u z m p d.default h;
    model =
        same_default f u z "model.default.updated" "model.default.cleared" "model"
          deployment_model_session_id d.logs deployment_session_id "dispatch_policy.default.updated"
          m (policy_to_dict p) d.default_model refl r.model;
    effort =
        same_default f u z "effort.default.updated" "effort.default.cleared" "effort"
          deployment_effort_session_id d.logs deployment_session_id
          "dispatch_policy.default.updated" m (policy_to_dict p) d.default_effort refl r.effort;
  }
  Step-IsReplayed {d} (sets_model m model) r = record {
    policy =
        same_policy f u z d.logs deployment_model_session_id "model.default.updated" m
          (field "model" (text model) end) d.default refl r.policy;
    model =
        last_default f u z "model.default.updated" "model.default.cleared" "model"
          deployment_model_session_id d.logs m "model.default.updated"
          (field "model" (text model) end) (some model) refl (λ old. refl);
    effort =
        same_default f u z "effort.default.updated" "effort.default.cleared" "effort"
          deployment_effort_session_id d.logs deployment_model_session_id "model.default.updated" m
          (field "model" (text model) end) d.default_effort refl r.effort;
  }
  Step-IsReplayed {d} (clears_model m) r = record {
    policy =
        same_policy f u z d.logs deployment_model_session_id "model.default.cleared" m end d.default
          refl r.policy;
    model =
        last_default f u z "model.default.updated" "model.default.cleared" "model"
          deployment_model_session_id d.logs m "model.default.cleared" end none refl (λ old. refl);
    effort =
        same_default f u z "effort.default.updated" "effort.default.cleared" "effort"
          deployment_effort_session_id d.logs deployment_model_session_id "model.default.cleared" m
          end d.default_effort refl r.effort;
  }
  Step-IsReplayed {d} (sets_effort m effort) r = record {
    policy =
        same_policy f u z d.logs deployment_effort_session_id "effort.default.updated" m
          (field "effort" (text effort) end) d.default refl r.policy;
    model =
        same_default f u z "model.default.updated" "model.default.cleared" "model"
          deployment_model_session_id d.logs deployment_effort_session_id "effort.default.updated" m
          (field "effort" (text effort) end) d.default_model refl r.model;
    effort =
        last_default f u z "effort.default.updated" "effort.default.cleared" "effort"
          deployment_effort_session_id d.logs m "effort.default.updated"
          (field "effort" (text effort) end) (some effort) refl (λ old. refl);
  }
  Step-IsReplayed {d} (clears_effort m) r = record {
    policy =
        same_policy f u z d.logs deployment_effort_session_id "effort.default.cleared" m end
          d.default refl r.policy;
    model =
        same_default f u z "model.default.updated" "model.default.cleared" "model"
          deployment_model_session_id d.logs deployment_effort_session_id "effort.default.cleared" m
          end d.default_model refl r.model;
    effort =
        last_default f u z "effort.default.updated" "effort.default.cleared" "effort"
          deployment_effort_session_id d.logs m "effort.default.cleared" end none refl
          (λ old. refl);
  }
  Step-IsReplayed {d} (logs_other m sid type body h) r = record {
    policy = same_policy f u z d.logs sid type m body d.default h.0 r.policy;
    model =
        same_default f u z "model.default.updated" "model.default.cleared" "model"
          deployment_model_session_id d.logs sid type m body d.default_model h.1.0 r.model;
    effort =
        same_default f u z "effort.default.updated" "effort.default.cleared" "effort"
          deployment_effort_session_id d.logs sid type m body d.default_effort h.1.1.0 r.effort;
  }

  unset-IsReplayed : (logs : Logs) → IsFresh logs → IsReplayed f u z (unset logs)
  unset-IsReplayed logs h = record {
    policy = rw h.no_policy (unfold replay_policies in refl);
    model = rw h.no_model (unfold replay_defaults in refl);
    effort = rw h.no_effort (unfold replay_defaults in refl);
  }

  Reach-IsReplayed : {d e : Deployment} → IsReplayed f u z d → Reach f z d e → IsReplayed f u z e
  Reach-IsReplayed h here = h
  Reach-IsReplayed h (next r s) = Step-IsReplayed s (Reach-IsReplayed h r)

  -- A log that does not exist has no events.
  exists_or_empty :
      {A : Type 0} (logs : Logs) (sid : String) (replay : List Fields → A) (default : A)
      → replay [] ≡ default
      → (if log_exists logs sid then replay (read_events logs sid) else default)
        ≡ replay (read_events logs sid)
  unfolding log_exists read_events
  exists_or_empty {A} logs sid replay default e = go (lookup sid logs)
    where
      go :
          (o : Option (List Fields))
          → ◌≡◌ {A = A}
              (if elim o [ none ↦ false | some lines ↦ true ]
                then replay (lines_or_none o)
                else default)
              (replay (lines_or_none o))
      go none = sym e
      go (some lines) = refl

-- From fresh logs, after the setters and `Clear…` in any order and between any other events, the
-- policies being of the form that `policy_from_dict` gives and the models and efforts any: a restart,
-- which replays the three reserved logs from no setting at all, finds the policy, the model and the
-- effort that the deployment has.
pub Reach-bootstrap :
    (f : Formats) (u : Digits) (z : Zones) (logs : Logs) (d : Deployment)
    → IsFresh logs
    → Reach f z (unset logs) d
    → (bootstrap_deployment_policy u z d.logs none ≡ parsed d.default)
      × (bootstrap_deployment_model_config d.logs none ≡ d.default_model)
      × (bootstrap_deployment_effort_config d.logs none ≡ d.default_effort)
unfolding bootstrap_deployment_policy bootstrap_deployment_model_config
    bootstrap_deployment_effort_config
Reach-bootstrap f u z logs d h r =
    let i = Reach-IsReplayed f u z (unset-IsReplayed f u z logs h) r in
    (
      exists_or_empty f u z d.logs deployment_session_id (λ es. replay_policies u z es none)
            (parsed none) (unfold replay_policies in refl)
          ∙ i.policy,
      exists_or_empty f u z d.logs deployment_model_session_id
            (λ es. replay_defaults "model.default.updated" "model.default.cleared" "model" es none)
            none (unfold replay_defaults in refl)
          ∙ i.model,
      exists_or_empty f u z d.logs deployment_effort_session_id
            (λ es.
              replay_defaults "effort.default.updated" "effort.default.cleared" "effort" es none)
            none (unfold replay_defaults in refl)
          ∙ i.effort,
    )
