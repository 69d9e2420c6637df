-- ===== src/UseCases/Gates.antt =====
-- `UpdateDispatchPolicyUseCase` and `ClearDispatchPolicyUseCase` of core/orchestration/use_cases, and
-- what the dispatcher then asks of the session.
use mad_edge.Prelude.{
  ℕ, ◌≡◌, refl, sym, subst, Option, none, some, String, str_eq_refl, length, ltb, if_either, arith,
}
use mad_edge.Prelude.Dict.{Dict, lookup, insert, lookup-insert}
use mad_edge.Policy.{Zones, DispatchPolicy, can_dispatch, resolve_effective_policy}
use mad_edge.Sessions.{Session, touch}
use mad_edge.Events.{Body, dispatch_policy_updated, dispatch_policy_cleared}
use mad_edge.Dispatcher.{Stamp, Dispatcher, emit, touched, can_dispatch_for}
use mad_edge.UseCases.{accepted, update_dispatch_policy, clear_dispatch_policy}
use mad_edge.UseCases.Effects.{accepted-injective, accepted_value}

-- The session's gate is that of a policy, with no drain left from before.
abbrev pub IsGatedBy : Zones → (ℕ → Stamp) → String → DispatchPolicy → Dispatcher → Type 0
IsGatedBy z stamp sid policy d =
    (s : Session) × (lookup sid d.sessions ≡ some s)
    × ((now : ℕ) → can_dispatch_for z stamp d.deployment (some now) s ≡ can_dispatch z policy now 0)

touched-lookup :
    (sid : String) (at : ℕ) (sessions : Dict Session) (s : Session)
    → lookup sid sessions ≡ some s
    → lookup sid (touched sid at sessions) ≡ some (touch s at)
touched-lookup sid at sessions s h =
    subst
      (λ k.
        lookup sid (elim k [ none ↦ sessions | some u ↦ insert sid (touch u at) sessions ])
        ≡ some (touch s at))
      (sym h) written
  where
    written : lookup sid (insert sid (touch s at) sessions) ≡ some (touch s at)
    written = rw (lookup-insert sid sid (touch s at) sessions, str_eq_refl sid) refl

module _ (z : Zones) (stamp : ℕ → Stamp) where
  gated :
      (sid : String) (b : Body) (d : Dispatcher) (s : Session) (policy : DispatchPolicy)
      → resolve_effective_policy s.dispatch_policy d.deployment ≡ policy
      → s.manual_drain_remaining ≡ 0
      → IsGatedBy z stamp sid policy
          (emit stamp sid b (record d { sessions = insert sid s d.sessions }))
  unfolding emit can_dispatch_for touch
  gated sid b d s policy p r = (
    touch s at,
    found,
    λ now.
        if_either
          (λ (x : Session).
            can_dispatch z (resolve_effective_policy x.dispatch_policy d.deployment) now
              x.manual_drain_remaining
            ≡ can_dispatch z policy now 0)
          (ltb s.updated_at at) (here now) (here now),
  )
    where
      at : ℕ
      at = (stamp (length d.log)).at

      stored : lookup sid (insert sid s d.sessions) ≡ some s
      stored = rw (lookup-insert sid sid s d.sessions, str_eq_refl sid) refl

      found :
          lookup sid (emit stamp sid b (record d { sessions = insert sid s d.sessions })).sessions
          ≡ some (touch s at)
      found = touched-lookup sid at (insert sid s d.sessions) s stored

      here :
          (now : ℕ)
          → can_dispatch z
              (resolve_effective_policy s.dispatch_policy d.deployment)
              now
              s.manual_drain_remaining
            ≡ can_dispatch z policy now 0
      here now = rw (p, r) refl

  -- After an accepted `update_dispatch_policy` the dispatcher asks the given policy of the session,
  -- whatever the deployment default, and no drain that was granted before authorises a dispatch.
  pub update_dispatch_policy-IsGatedBy :
      (sid : String) (policy p : DispatchPolicy) (d d' : Dispatcher)
      → update_dispatch_policy stamp sid policy d ≡ accepted p d'
      → (p ≡ policy) × IsGatedBy z stamp sid policy d'
  unfolding update_dispatch_policy resolve_effective_policy
  update_dispatch_policy-IsGatedBy sid policy p d d' h = go (lookup sid d.sessions) refl
    where
      next : Session → Dispatcher
      next s = emit stamp sid (dispatch_policy_updated policy) (record d {
        sessions =
            insert sid (record s { dispatch_policy = some policy; manual_drain_remaining = 0 })
              d.sessions;
      })

      go :
          (k : Option Session)
          → lookup sid d.sessions ≡ k
          → (p ≡ policy) × IsGatedBy z stamp sid policy d'
      go none q = absurd (ground arith)
      go (some s) q =
          let same : accepted policy (next s) ≡ accepted p d' =
            rw (q, update_dispatch_policy) at h in
          (
            sym (accepted_value policy p (next s) d' same),
            subst (IsGatedBy z stamp sid policy) (accepted-injective policy p (next s) d' same) (
                gated sid (dispatch_policy_updated policy) d
                  (record s { dispatch_policy = some policy; manual_drain_remaining = 0 }) policy
                  refl refl),
          )

  -- After an accepted `clear_dispatch_policy` the dispatcher asks the deployment default of the session,
  -- or the immediate policy if there is none; that is the policy returned, and no drain that was granted
  -- before authorises a dispatch.
  pub clear_dispatch_policy-IsGatedBy :
      (sid : String) (p : DispatchPolicy) (d d' : Dispatcher)
      → clear_dispatch_policy stamp sid d ≡ accepted p d'
      → (p ≡ resolve_effective_policy none d.deployment) × IsGatedBy z stamp sid p d'
  unfolding clear_dispatch_policy
  clear_dispatch_policy-IsGatedBy sid p d d' h = go (lookup sid d.sessions) refl
    where
      inherited : DispatchPolicy
      inherited = resolve_effective_policy none d.deployment

      next : Session → Dispatcher
      next s = emit stamp sid dispatch_policy_cleared (record d {
        sessions =
            insert sid (record s { dispatch_policy = none; manual_drain_remaining = 0 }) d.sessions;
      })

      go :
          (k : Option Session)
          → lookup sid d.sessions ≡ k
          → (p ≡ inherited) × IsGatedBy z stamp sid p d'
      go none q = absurd (ground arith)
      go (some s) q =
          let same : accepted inherited (next s) ≡ accepted p d' =
            rw (q, clear_dispatch_policy) at h in
          let value : inherited ≡ p = accepted_value inherited p (next s) d' same in
          (
            sym value,
            subst (IsGatedBy z stamp sid p) (accepted-injective inherited p (next s) d' same) (
                gated sid dispatch_policy_cleared d
                  (record s { dispatch_policy = none; manual_drain_remaining = 0 }) p value refl),
          )
