-- ===== src/UseCases/Drain.antt =====
-- `TriggerManualDispatchUseCase` and the counter that each dispatch uses up.
use mad_edge.Prelude.{
  ℕ, zero, suc, ◌-◌, ◌≡◌, refl, sym, ap, subst, ◌∙◌, Bool, true, false, Option, none, some, String,
  str_eq_refl, ltb, length, Bool-cases, inl, inr, arith, if◌then◌else◌,
}
use mad_edge.Prelude.Dict.{Dict, lookup, insert, lookup-insert}
use mad_edge.Policy.{
  Zones, DispatchPolicy, immediate, work_window, manual, is_manual, can_dispatch,
  resolve_effective_policy,
}
use mad_edge.Sessions.{Session}
use mad_edge.Projection.{queued}
use mad_edge.Dispatcher.{Stamp, Dispatcher, use_drain, can_dispatch_for}
use mad_edge.UseCases.{accepted, trigger_manual_dispatch}
use mad_edge.UseCases.Effects.{accepted-injective, accepted_value}

abbrev left : Session → ℕ → Option Session
left s n = some (record s { manual_drain_remaining = n })

abbrev drained : Session → ℕ → Session
drained s k = record s { manual_drain_remaining = s.manual_drain_remaining - k }

module _ (z : Zones) (stamp : ℕ → Stamp) where
  -- The index after `k` dispatches of the session's tasks.
  unfoldable pub dispatched : ℕ → String → Dict Session → Dict Session
  dispatched zero sid sessions = sessions
  dispatched (suc k) sid sessions = use_drain z stamp sid (dispatched k sid sessions)

  use_drain-drained :
      (sid : String) (s : Session) (sessions : Dict Session)
      → lookup sid sessions ≡ some s
      → lookup sid (use_drain z stamp sid sessions) ≡ some (drained s 1)
  unfolding use_drain
  use_drain-drained sid s sessions h = rw (h, use_drain) (go (ltb 0 s.manual_drain_remaining) refl)
    where
      less : Session
      less = drained s 1

      go :
          (b : Bool)
          → ltb 0 s.manual_drain_remaining ≡ b
          → lookup sid (if b then insert sid less sessions else sessions) ≡ some less
      go true q = rw (lookup-insert sid sid less sessions, str_eq_refl sid) refl
      go false q =
          let same : s.manual_drain_remaining ≡ s.manual_drain_remaining - 1 = ground arith in
          h ∙ ap (left s) same

  dispatched-drained :
      (k : ℕ) (sid : String) (s : Session) (sessions : Dict Session)
      → lookup sid sessions ≡ some s
      → lookup sid (dispatched k sid sessions) ≡ some (drained s k)
  unfolding dispatched
  dispatched-drained zero sid s sessions h =
      let same : s.manual_drain_remaining ≡ s.manual_drain_remaining - 0 = omega arith in
      h ∙ ap (left s) same
  dispatched-drained (suc k) sid s sessions h =
      let same : s.manual_drain_remaining - k - 1 ≡ s.manual_drain_remaining - suc k =
        omega arith in
      use_drain-drained sid (drained s k) (dispatched k sid sessions)
        (dispatched-drained k sid s sessions h)
      ∙ ap (left s) same

  manual_open :
      (p : DispatchPolicy) (now n : ℕ) → is_manual p ≡ true → can_dispatch z p now n ≡ ltb 0 n
  unfolding can_dispatch
  manual_open immediate now n h = cc
  manual_open (work_window ws) now n h = cc
  manual_open manual now n h = refl

  triggered :
      (sid : String) (n : ℕ) (d d' : Dispatcher)
      → trigger_manual_dispatch stamp sid d ≡ accepted n d'
      → (s : Session) × (n ≡ length (queued d.projection sid))
        × (is_manual (resolve_effective_policy s.dispatch_policy d.deployment) ≡ true)
        × (lookup sid d'.sessions ≡ left s (length (queued d.projection sid)))
        × (d'.deployment ≡ d.deployment)
  unfolding trigger_manual_dispatch
  triggered sid n d d' h = go (lookup sid d.sessions) refl
    where
      waits : ℕ
      waits = length (queued d.projection sid)

      after : Session → Dispatcher
      after s = record d {
        sessions = insert sid (record s { manual_drain_remaining = waits }) d.sessions;
      }

      Triggered : Type 0
      Triggered =
          (s : Session) × (n ≡ waits)
          × (is_manual (resolve_effective_policy s.dispatch_policy d.deployment) ≡ true)
          × (lookup sid d'.sessions ≡ left s waits)
          × (d'.deployment ≡ d.deployment)

      go : (k : Option Session) → lookup sid d.sessions ≡ k → Triggered
      go none q = absurd (ground arith)
      go (some s) q =
          elim (Bool-cases (is_manual (resolve_effective_policy s.dispatch_policy d.deployment))) [
            | inl m ↦
                let same : accepted waits (after s) ≡ accepted n d' =
                  rw (q, trigger_manual_dispatch, m) at h in
                let state : after s ≡ d' = accepted-injective waits n (after s) d' same in
                let stored : lookup sid (after s).sessions ≡ left s waits =
                  rw
                    (
                      lookup-insert sid sid (record s { manual_drain_remaining = waits })
                          d.sessions,
                      str_eq_refl sid,
                    )
                    refl in
                (
                  s,
                  sym (accepted_value waits n (after s) d' same),
                  m,
                  subst (λ x. lookup sid x.sessions ≡ left s waits) state stored,
                  sym (ap (λ x. x.deployment) state),
                )
            | inr m ↦ absurd (ground arith)
          ]

  -- An accepted trigger gives the session exactly as many dispatches as it has tasks waiting: after
  -- `k` dispatches its policy lets a task through if and only if `k` is below that number.
  pub trigger_manual_dispatch-drains :
      (sid : String) (n k now : ℕ) (d d' : Dispatcher)
      → trigger_manual_dispatch stamp sid d ≡ accepted n d'
      → (s : Session) × (n ≡ length (queued d.projection sid))
        × (lookup sid (dispatched k sid d'.sessions) ≡ some s)
        × (can_dispatch_for z stamp d'.deployment (some now) s ≡ ltb k n)
  unfolding can_dispatch_for
  trigger_manual_dispatch-drains sid n k now d d' h =
      let (s, count, is_man, found, same) = triggered sid n d d' h in
      let waits = length (queued d.projection sid) in
      (
        drained (record s { manual_drain_remaining = waits }) k,
        count,
        dispatched-drained k sid (record s { manual_drain_remaining = waits }) d'.sessions found,
        manual_open (resolve_effective_policy s.dispatch_policy d'.deployment) now (waits - k) (
              subst (λ p. is_manual (resolve_effective_policy s.dispatch_policy p) ≡ true)
                (sym same) is_man)
            ∙ ground (arith, count),
      )
