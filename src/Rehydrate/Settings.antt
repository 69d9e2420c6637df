-- ===== src/Rehydrate/Settings.antt =====
-- The status and the settings of a session that core/sessions/domain/rehydrate.py reads back from its
-- log.
use mad_edge.Prelude.{
  ℕ, ◌≡◌, refl, sym, ap, subst, ◌∙◌, Bool, false, Option, none, some, List, [], ◌∷◌, String, str_eq,
  str_eq-cases, inl, inr, if◌then◌else◌,
}
use mad_edge.Json.{Json, null, flag, num, text, arr, obj, Fields, get}
use mad_edge.Policy.{Zones, DispatchPolicy}
use mad_edge.Policy.Serial.{Parsed, parsed, invalid, crash, Digits, policy_from_dict}
use mad_edge.Policy.Serial.Accepted.{parsed-injective, then_parsed}
use mad_edge.Ordering.{validate_priority, default_priority}
use mad_edge.Sessions.{Session, SessionStatus}
use mad_edge.Store.{Formats}
use mad_edge.Tasks.{or_default}
use mad_edge.Rehydrate.{
  EventKind, Seen, nothing_seen, stamped, session_created, status_running, status_idle,
  session_error, session_deleted, policy_updated, policy_cleared, priority_updated, other_kind,
  kind_of, kind_of_text, change, after_change, parse_timestamp, set_policy, set_priority, given_of,
  replay_event, replay_events, rehydrate_from_events, session_of, event_payload,
}

-- The last event of a log that sets something, from the end.
abbrev or_else {ℓ} : {A : Type ℓ} → Option A → Option A → Option A
or_else (some x) o = some x
or_else none o = o

abbrev pub latest {ℓ} : {A : Type ℓ} → (Fields → Option A) → List Fields → Option A
latest g [] = none
latest g (e ∷ es) = or_else (latest g es) (g e)

or_default-or_else :
    {A : Type 0} (o p : Option A) (d : A)
    → or_default (or_else o p) d ≡ or_default o (or_default p d)
or_default-or_else (some x) p d = refl
or_default-or_else none p d = refl

-- What the events set: the status that goes with a type, the policy that an update holds, if it can be
-- read, or none where it is cleared, and a priority that is allowed.
abbrev statuses : List (String × SessionStatus)
statuses =
    ("session.status_running", SessionStatus.running)
    ∷ ("session.status_idle", SessionStatus.idle)
    ∷ ("session.error", SessionStatus.error)
    ∷ ("session.deleted", SessionStatus.deleted)
    ∷ []

abbrev find_status : String → List (String × SessionStatus) → Option SessionStatus
find_status x [] = none
find_status x ((k, s) ∷ rest) = if str_eq x k then some s else find_status x rest

abbrev status_by : Option Json → Option SessionStatus
status_by (some (text x)) = find_status x statuses
status_by _ = none

abbrev has_type : String → Option Json → Bool
has_type k (some (text x)) = str_eq x k
has_type k _ = false

abbrev if_parsed : Parsed DispatchPolicy → Option (Option DispatchPolicy)
if_parsed (parsed p) = some (some p)
if_parsed _ = none

abbrev policy_by : Option Json → Parsed DispatchPolicy → Option (Option DispatchPolicy)
policy_by type read =
    if has_type "dispatch_policy.cleared" type
    then some none
    else if has_type "dispatch_policy.updated" type
    then if_parsed read
    else none

abbrev priority_by : Option Json → Option ℕ → Option ℕ
priority_by type read = if has_type "dispatch_priority.updated" type then read else none

abbrev pub status_set : Fields → Option SessionStatus
status_set e = status_by (get "type" e)

abbrev pub policy_set : Digits → Zones → Fields → Option (Option DispatchPolicy)
policy_set u z e = policy_by (get "type" e) (policy_from_dict u z (event_payload e))

abbrev pub priority_set : Fields → Option ℕ
priority_set e = priority_by (get "type" e) (validate_priority (given_of (get "priority" e)))

abbrev Same : Seen → Seen → Type 0
Same s s' =
    (s'.status ≡ s.status) × (s'.dispatch_policy ≡ s.dispatch_policy) × (s'.priority ≡ s.priority)

stamped-Same : (kind : EventKind) (ts : Option ℕ) (s : Seen) → Same s (stamped kind ts s)
stamped-Same kind none s = (refl, refl, refl)
stamped-Same kind (some t) s = (refl, refl, refl)

settled :
    (kind : EventKind) (ts : Option ℕ) (s s' : Seen)
    → parsed (stamped kind ts s) ≡ parsed s'
    → Same s s'
settled kind ts s s' h = subst (Same s) (parsed-injective _ s' h) (stamped-Same kind ts s)

unchanged : (s s' : Seen) → parsed s ≡ parsed s' → Same s s'
unchanged s s' h = subst (Same s) (parsed-injective s s' h) (refl, refl, refl)

module _ (f : Formats) (u : Digits) (z : Zones) where
  -- `s'` is `s` after an event of a type, with what it sets.
  abbrev SetsBy : Option Json → Fields → Seen → Seen → Type 0
  SetsBy type e s s' =
      (s'.status ≡ or_default (status_by type) s.status)
      × (s'.dispatch_policy
          ≡ or_default (policy_by type (policy_from_dict u z (event_payload e))) s.dispatch_policy)
      × (s'.priority
          ≡ or_default (priority_by type (validate_priority (given_of (get "priority" e))))
              s.priority)

  abbrev Step : Fields → Option ℕ → Seen → Seen → String → Type 0
  Step e ts s s' x =
      after_change f u z (kind_of_text x) ts s (change f u z (kind_of_text x) e s) ≡ parsed s'
      → SetsBy (some (text x)) e s s'

  updated :
      (e : Fields) (ts : Option ℕ) (s s' : Seen) (read : Parsed DispatchPolicy)
      → after_change f u z policy_updated ts s (set_policy s read) ≡ parsed s'
      → (s'.status ≡ s.status)
        × (s'.dispatch_policy ≡ or_default (if_parsed read) s.dispatch_policy)
        × (s'.priority ≡ s.priority)
  updated e ts s s' (parsed p) h =
      settled policy_updated ts (record s { dispatch_policy = some p }) s' h
  updated e ts s s' invalid h = unchanged s s' h
  updated e ts s s' crash h = cc

  prioritised :
      (e : Fields) (ts : Option ℕ) (s s' : Seen) (read : Option ℕ)
      → after_change f u z priority_updated ts s (set_priority s read) ≡ parsed s'
      → (s'.status ≡ s.status)
        × (s'.dispatch_policy ≡ s.dispatch_policy)
        × (s'.priority ≡ or_default read s.priority)
  prioritised e ts s s' (some n) h = settled priority_updated ts (record s { priority = n }) s' h
  prioritised e ts s s' none h = unchanged s s' h

  -- The type is one of the eight, or another one.
  step_text : (e : Fields) (ts : Option ℕ) (s s' : Seen) (x : String) → Step e ts s s' x
  unfolding change
  step_text e ts s s' x = elim (str_eq-cases x "session.created") [
    | inl (q, same) ↦ at same (λ h. settled session_created ts _ s' h)
    | inr (n1, ne) ↦ elim (str_eq-cases x "session.status_running") [
      | inl (q, same) ↦ at same (λ h. settled status_running ts _ s' h)
      | inr (n2, ne) ↦ elim (str_eq-cases x "session.status_idle") [
        | inl (q, same) ↦ at same (λ h. settled status_idle ts _ s' h)
        | inr (n3, ne) ↦ elim (str_eq-cases x "session.error") [
          | inl (q, same) ↦ at same (λ h. settled session_error ts _ s' h)
          | inr (n4, ne) ↦ elim (str_eq-cases x "session.deleted") [
            | inl (q, same) ↦ at same (λ h. settled session_deleted ts _ s' h)
            | inr (n5, ne) ↦ elim (str_eq-cases x "dispatch_policy.updated") [
              | inl (q, same) ↦
                  at same (λ h. updated e ts s s' (policy_from_dict u z (event_payload e)) h)
              | inr (n6, ne) ↦ elim (str_eq-cases x "dispatch_policy.cleared") [
                | inl (q, same) ↦ at same (λ h. settled policy_cleared ts _ s' h)
                | inr (n7, ne) ↦ elim (str_eq-cases x "dispatch_priority.updated") [
                  | inl (q, same) ↦ at same (λ h.
                      prioritised e ts s s' (validate_priority (given_of (get "priority" e))) h)
                  | inr (n8, ne) ↦
                      rw (n1, n2, n3, n4, n5, n6, n7, n8) (λ h. settled other_kind ts s s' h)
                ]
              ]
            ]
          ]
        ]
      ]
    ]
  ]
    where
      at : {k : String} → x ≡ k → Step e ts s s' k → Step e ts s s' x
      at same h = subst (Step e ts s s') (sym same) h

  step_any :
      (e : Fields) (ts : Option ℕ) (s s' : Seen) (type : Option Json)
      → after_change f u z (kind_of type) ts s (change f u z (kind_of type) e s) ≡ parsed s'
      → SetsBy type e s s'
  unfolding kind_of change
  step_any e ts s s' (some (text x)) h = step_text e ts s s' x h
  step_any e ts s s' none h = settled other_kind ts s s' h
  step_any e ts s s' (some null) h = settled other_kind ts s s' h
  step_any e ts s s' (some (flag b)) h = settled other_kind ts s s' h
  step_any e ts s s' (some (num n)) h = settled other_kind ts s s' h
  step_any e ts s s' (some (arr js)) h = settled other_kind ts s s' h
  step_any e ts s s' (some (obj fs)) h = settled other_kind ts s s' h

  replayed :
      (es : List Fields) (s s' : Seen)
      → replay_events f u z es s ≡ parsed s'
      → (s'.status ≡ or_default (latest status_set es) s.status)
        × (s'.dispatch_policy ≡ or_default (latest (policy_set u z) es) s.dispatch_policy)
        × (s'.priority ≡ or_default (latest priority_set es) s.priority)
  unfolding replay_events replay_event
  replayed [] s s' h = unchanged s s' h
  replayed (e ∷ es) s s' h =
      let (mid, now, later) = then_parsed (replay_event f u z e s) _ s' h in
      let (a, b, c) =
        step_any e (parse_timestamp f u z (get "timestamp" e)) s mid (get "type" e) now in
      let (a', b', c') = replayed es mid s' later in
      (
        a'
            ∙ ap (or_default (latest status_set es)) a
            ∙ sym (or_default-or_else (latest status_set es) (status_set e) s.status),
        b'
            ∙ ap (or_default (latest (policy_set u z) es)) b
            ∙ sym (
                or_default-or_else (latest (policy_set u z) es) (policy_set u z e)
                  s.dispatch_policy),
        c'
            ∙ ap (or_default (latest priority_set es)) c
            ∙ sym (or_default-or_else (latest priority_set es) (priority_set e) s.priority),
      )

-- A session that is rebuilt from its log has the status that goes with the last event that changes it
-- (running, idle, error or deleted), and "created" without one; the policy of the last readable
-- `dispatch_policy.updated`, or none if there is no such event or a `dispatch_policy.cleared` after it;
-- and the priority of the last `dispatch_priority.updated` whose value is allowed, or the default.
pub rehydrate_from_events-settings :
    (f : Formats) (u : Digits) (z : Zones) (sid : String) (events : List Fields) (s : Session)
    → rehydrate_from_events f u z sid events ≡ parsed s
    → (s.status ≡ or_default (latest status_set events) SessionStatus.created)
      × (s.dispatch_policy ≡ or_default (latest (policy_set u z) events) none)
      × (s.priority ≡ or_default (latest priority_set events) default_priority)
unfolding rehydrate_from_events session_of nothing_seen
rehydrate_from_events-settings f u z sid events s e =
    let (t, before, made) = then_parsed (replay_events f u z events nothing_seen) _ s e in
    let same = parsed-injective (session_of sid t) s made in
    let (a, b, c) = replayed f u z events nothing_seen t before in
    (
      ap (λ (x : Session). x.status) (sym same) ∙ a,
      ap (λ (x : Session). x.dispatch_policy) (sym same) ∙ b,
      ap (λ (x : Session). x.priority) (sym same) ∙ c,
    )
