-- ===== src/Rehydrate/Startup.antt =====
-- core/orchestration/use_cases/rehydrate_pending_sessions.py: the index after a restart.
use mad_edge.Prelude.{
  ◌≡◌, ◌≢◌, refl, sym, ap, subst, ◌∙◌, Bool, true, false, Option, none, some, List, [], ◌∷◌, ◌++◌,
  String, str_eq, str_eq-cases, Member, inl, inr, ◌⊎◌, if◌then◌else◌, arith,
}
use mad_edge.Prelude.Dict.{Dict, lookup, insert, has, lookup-insert}
use mad_edge.Policy.{Zones}
use mad_edge.Policy.Serial.{Parsed, parsed, invalid, crash, Digits}
use mad_edge.Policy.Serial.Accepted.{then_parsed, parsed-injective}
use mad_edge.Sessions.{Session}
use mad_edge.Projection.{Projection, pending_session_ids}
use mad_edge.GlobalQueue.Live.{IsIndex}
use mad_edge.GlobalQueue.Errors.{AllLive}
use mad_edge.Store.{Formats, Logs, read_events, log_exists}
use mad_edge.Rehydrate.{
  nothing_seen, replay_events, rehydrate_from_events, Restored, restored, no_log, replay_failed,
  restore_one, restore_each, rehydrate_pending_sessions,
}

module _ (f : Formats) (u : Digits) (z : Zones) where
  rehydrate_from_events-id :
      (sid : String) (logs : Logs) (s : Session)
      → rehydrate_from_events f u z sid (read_events logs sid) ≡ parsed s
      → s.session_id ≡ sid
  unfolding rehydrate_from_events
  rehydrate_from_events-id sid logs s e =
      let (seen, _, made) =
        then_parsed (replay_events f u z (read_events logs sid) nothing_seen) _ s e in
      ap (λ (x : Session). x.session_id) (sym (parsed-injective _ s made))

  -- How one pending id leads on: nothing is done, or its session is rebuilt and put in.
  abbrev OneStep : Logs → String → Dict Session → Dict Session → Type 0
  OneStep logs sid index index' =
      ((has sid index ≡ true) × (index' ≡ index))
      ⊎ ((s : Session) × (has sid index ≡ false)
          × (rehydrate_from_events f u z sid (read_events logs sid) ≡ parsed s)
          × (index' ≡ insert sid s index))

  restore_one-OneStep :
      (logs : Logs) (sid : String) (index out : Dict Session) (ids made : List String)
      (rest : Dict Session → List String → Restored)
      → restore_one f u z logs sid index ids rest ≡ restored out made
      → (index' : Dict Session) × (ids' : List String) × OneStep logs sid index index'
        × (rest index' ids' ≡ restored out made)
  restore_one-OneStep logs sid index out ids made rest e =
      go (has sid index) (log_exists logs sid)
        (rehydrate_from_events f u z sid (read_events logs sid)) refl refl e
    where
      go :
          (known logged : Bool) (replay : Parsed Session)
          → has sid index ≡ known
          → rehydrate_from_events f u z sid (read_events logs sid) ≡ replay
          → (if known
              then rest index ids
              else if logged
              then elim replay [
                | parsed s ↦ rest (insert sid s index) (ids ++ sid ∷ [])
                | invalid ↦ replay_failed
                | crash ↦ replay_failed
              ]
              else no_log sid)
            ≡ restored out made
          → (index' : Dict Session) × (ids' : List String) × OneStep logs sid index index'
            × (rest index' ids' ≡ restored out made)
      go true logged replay p q e = (index, ids, inl (p, refl), e)
      go false true (parsed s) p q e = (insert sid s index, ids ++ sid ∷ [], inr (s, p, q, refl), e)
      go false true invalid p q e = cc
      go false true crash p q e = cc
      go false false replay p q e = cc

  -- What one step and what all of them keep of the index.
  abbrev Extends : Dict Session → Dict Session → Type 0
  Extends index out =
      (sid : String) (s : Session) → lookup sid index ≡ some s → lookup sid out ≡ some s

  lookup_fresh :
      (sid : String) (index : Dict Session) → has sid index ≡ false → lookup sid index ≡ none
  lookup_fresh sid index h = go (lookup sid index) refl h
    where
      go :
          (o : Option Session)
          → lookup sid index ≡ o
          → (elim o [ none ↦ false | some s ↦ true ]) ≡ false
          → lookup sid index ≡ none
      go none e h = e
      go (some s) e h = cc

  Extends-insert :
      (sid : String) (s : Session) (index : Dict Session)
      → lookup sid index ≡ none
      → Extends index (insert sid s index)
  Extends-insert sid s index fresh k x found = elim (str_eq-cases sid k) [
    | inl (e, same) ↦
        let gone : lookup k index ≡ none = subst (λ j. lookup j index ≡ none) same fresh in
        absurd (ground arith)
    | inr (e, ne) ↦ rw (lookup-insert sid k s index, e) found
  ]

  IsIndex-insert :
      (sid : String) (s : Session) (index : Dict Session)
      → s.session_id ≡ sid
      → lookup sid index ≡ none
      → IsIndex index
      → IsIndex (insert sid s index)
  unfolding insert lookup
  IsIndex-insert sid s [] own fresh i = (own, refl, tt)
  IsIndex-insert sid s ((k, x) ∷ rest) own fresh i = elim (str_eq-cases k sid) [
    | inl (e, same) ↦ absurd (ground arith)
    | inr (e, ne) ↦
        let later : lookup sid rest ≡ none = ground arith in
        rw e (
          i.0,
          lookup-insert sid k s rest ∙ apart k ne i.1 (str_eq-cases sid k),
          IsIndex-insert sid s rest own later i.2,
        )
  ]
    where
      apart :
          (k : String)
          → k ≢ sid
          → lookup k rest ≡ none
          → ((str_eq sid k ≡ true) × (sid ≡ k)) ⊎ ((str_eq sid k ≡ false) × (sid ≢ k))
          → (if str_eq sid k then some s else lookup k rest) ≡ none
      apart k ne gone (inl (e, same)) = absurd (ne (sym same))
      apart k ne gone (inr (e, other)) = rw e gone

  OneStep-lem :
      (logs : Logs) (sid : String) (index index' : Dict Session)
      → OneStep logs sid index index'
      → Extends index index'
        × (IsIndex index → IsIndex index')
        × ((s : Session) × (lookup sid index' ≡ some s))
  OneStep-lem logs sid index index' (inl (known, same)) =
      subst
        (λ (x : Dict Session).
          Extends index x × (IsIndex index → IsIndex x) × ((s : Session) × (lookup sid x ≡ some s)))
        (sym same) (λ k s found. found, λ i. i, go (lookup sid index) refl known)
    where
      go :
          (o : Option Session)
          → lookup sid index ≡ o
          → (elim o [ none ↦ false | some s ↦ true ]) ≡ true
          → (s : Session) × (lookup sid index ≡ some s)
      go none e h = cc
      go (some s) e h = (s, e)
  OneStep-lem logs sid index index' (inr (s, known, made, same)) =
      let fresh = lookup_fresh sid index known in
      subst
        (λ (x : Dict Session).
          Extends index x × (IsIndex index → IsIndex x) × ((t : Session) × (lookup sid x ≡ some t)))
        (sym same)
        (
          Extends-insert sid s index fresh,
          IsIndex-insert sid s index (rehydrate_from_events-id sid logs s made) fresh,
          (s, lookup-insert sid sid s index ∙ here (str_eq-cases sid sid)),
        )
    where
      here :
          ((str_eq sid sid ≡ true) × (sid ≡ sid)) ⊎ ((str_eq sid sid ≡ false) × (sid ≢ sid))
          → (if str_eq sid sid then some s else lookup sid index) ≡ some s
      here (inl (e, q)) = rw e refl
      here (inr (e, ne)) = absurd (ne refl)

  restore_each-lem :
      (logs : Logs) (sids : List String) (index out : Dict Session) (ids made : List String)
      → restore_each f u z logs sids index ids ≡ restored out made
      → Extends index out × (IsIndex index → IsIndex out) × AllLive out sids
  unfolding restore_each
  restore_each-lem logs [] index out ids made e =
      let same = restored_index index out ids made e in
      (
        λ sid s found. subst (λ (x : Dict Session). lookup sid x ≡ some s) same found,
        λ i. subst (λ (x : Dict Session). IsIndex x) same i,
        λ sid m. absurd m,
      )
    where
      restored_index :
          (a b : Dict Session) (xs ys : List String) → restored a xs ≡ restored b ys → a ≡ b
      restored_index a b xs ys e = cc
  restore_each-lem logs (sid ∷ sids) index out ids made e =
      let (index', ids', step, e') =
        restore_one-OneStep logs sid index out ids made (restore_each f u z logs sids) e in
      let (kept, indexed, (s, found)) = OneStep-lem logs sid index index' step in
      let (kept', indexed', live) = restore_each-lem logs sids index' out ids' made e' in
      (
        λ k x look. kept' k x (kept k x look),
        λ i. indexed' (indexed i),
        λ k m. place k s (kept' sid s found) live m,
      )
    where
      place :
          (k : String) (s : Session)
          → lookup sid out ≡ some s
          → AllLive out sids
          → Member k (sid ∷ sids)
          → (t : Session) × (lookup k out ≡ some t)
      place k s found live (inl same) = (s, subst (λ j. lookup j out ≡ some s) (sym same) found)
      place k s found live (inr m) = live k m

-- When the rehydration at startup ends without an exception, every session with queued or in-flight
-- tasks is in the index, so that the view of the global queue misses none; the sessions that were
-- live before are as they were; and if each session stood once in the index, under its own id, then
-- so it does afterwards.
pub rehydrate_pending_sessions-AllLive :
    (f : Formats) (u : Digits) (z : Zones) (p : Projection) (logs : Logs) (index out : Dict Session)
    (ids : List String)
    → rehydrate_pending_sessions f u z p logs index ≡ restored out ids
    → AllLive out (pending_session_ids p)
      × ((sid : String) (s : Session) → lookup sid index ≡ some s → lookup sid out ≡ some s)
      × (IsIndex index → IsIndex out)
unfolding rehydrate_pending_sessions
rehydrate_pending_sessions-AllLive f u z p logs index out ids e =
    let (kept, indexed, live) =
      restore_each-lem f u z logs (pending_session_ids p) index out [] ids e in
    (live, kept, indexed)
