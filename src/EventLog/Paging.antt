-- ===== src/EventLog/Paging.antt =====
-- The pages of core/events/use_cases/query_events.py, one cursor after the other.
use mad_edge.Prelude.{
  ℕ, zero, suc, ◌-◌, ◌<◌, ◌≡◌, refl, sym, ap, subst, ◌∙◌, true, false, ◌&&◌, Option, none, some,
  List, ◌++◌, keep, length, ltb, All, if◌then◌else◌, arith, Bool-cases, inl, inr, ◌⊎◌, min, max,
  take, drop, take-drop, take-take, take-all, length-drop, length-keep-le, length-take_more,
  keep-keep, keep-and,
}
use mad_edge.Prelude.Sorting.{sort_by, sort_by-keep, length-sort_by}
use mad_edge.Store.{Formats, StoredEvent}
use mad_edge.EventLog.{
  EventQuery, last_id, after_cursor, matches, key_ltb, query, QueryEventsInput, QueryEventsOutput,
  agent_sessions, effective_limit, query_events, max_limit,
}
use mad_edge.EventLog.Sorted.{
  IsOrderly, IsMinted, IsAscending, key_ltb-IsWeakOrder, sort_by-IsAscending,
}
use mad_edge.EventLog.Cursor.{Above, behind, Above-behind, last_of, behind-behind}

effective_limit_positive : (limit : ℕ) → (n : ℕ) × (effective_limit limit ≡ suc n)
unfolding effective_limit
effective_limit_positive limit = (max 1 (min limit max_limit) - 1, omega arith)

-- The filter of a request, with a cursor and a limit.
abbrev filter_of : Formats → QueryEventsInput → List StoredEvent → Option ℕ → ℕ → EventQuery
filter_of f payload log cursor limit = record {
  session_id = payload.session_id;
  kind = payload.kind;
  session_ids_for_agent = agent_sessions f payload.agent log;
  since = payload.since;
  after_event_id = cursor;
  limit = limit;
}

module _ (f : Formats) (payload : QueryEventsInput) (log : List StoredEvent) where
  -- All the events that the request matches, in order.
  abbrev pub all_matching : Option ℕ → List StoredEvent
  all_matching cursor = sort_by (key_ltb f) (keep (matches (filter_of f payload log cursor 0)) log)

  abbrev from_cursor : Option ℕ → QueryEventsInput
  from_cursor cursor = record payload { after_event_id = cursor }

  -- A client that asks for a page, and then from the cursor that it is given for the next one.
  abbrev follow :
      QueryEventsOutput → (Option ℕ → Option (List StoredEvent)) → Option (List StoredEvent)
  follow out next = elim out.next_cursor [
    | none ↦ some out.events
    | some id ↦ elim (next (some id)) [ none ↦ none | some rest ↦ some (out.events ++ rest) ]
  ]

  joined : List StoredEvent → Option (List StoredEvent) → Option (List StoredEvent)
  joined events o = elim o [ none ↦ none | some rest ↦ some (events ++ rest) ]

  follow-next :
      (events : List StoredEvent) (cursor : Option ℕ) (next : Option ℕ → Option (List StoredEvent))
      (id : ℕ) (rest : List StoredEvent)
      → cursor ≡ some id
      → next (some id) ≡ some rest
      → follow (record { events = events; next_cursor = cursor }) next ≡ some (events ++ rest)
  unfolding joined
  follow-next events none next id rest p q = cc
  follow-next events (some x) next id rest p q = ap (joined events) (ap next p ∙ q)

  unfoldable pub pages : ℕ → Option ℕ → Option (List StoredEvent)
  unfolding query_events
  pages zero cursor = none
  pages (suc fuel) cursor =
      let next = λ (c : Option ℕ). pages fuel c in
      follow (query_events f (from_cursor cursor) log) next

  matches_cursor :
      (cursor : Option ℕ) (limit : ℕ) (e : StoredEvent)
      → matches (filter_of f payload log cursor limit) e
        ≡ (matches (filter_of f payload log none 0) e && after_cursor cursor e)
  unfolding matches
  matches_cursor cursor limit e = ground arith

  all_matching-behind :
      (cursor : Option ℕ) → all_matching cursor ≡ behind cursor (all_matching none)
  all_matching-behind cursor =
      ap (sort_by (key_ltb f)) (
        keep-and (matches (filter_of f payload log none 0)) (after_cursor cursor)
          (matches (filter_of f payload log cursor 0)) log (matches_cursor cursor 0))
      ∙ sort_by-keep (key_ltb f) (key_ltb-IsWeakOrder f) (after_cursor cursor)
          (keep (matches (filter_of f payload log none 0)) log)

  query-take :
      (cursor : Option ℕ) (limit : ℕ)
      → query f (filter_of f payload log cursor limit) log
        ≡ take limit (behind cursor (all_matching none))
  unfolding query
  query-take cursor limit = ap (take limit) (
      ap (sort_by (key_ltb f)) (
        keep-and (matches (filter_of f payload log none 0)) (after_cursor cursor)
          (matches (filter_of f payload log cursor limit)) log (matches_cursor cursor limit))
      ∙ sort_by-keep (key_ltb f) (key_ltb-IsWeakOrder f) (after_cursor cursor)
          (keep (matches (filter_of f payload log none 0)) log))

  abbrev answer : ℕ → List StoredEvent → QueryEventsOutput
  answer n events =
      if ltb n (length events)
      then record { events = take n events; next_cursor = last_id (take n events) }
      else record { events = events; next_cursor = none }

  answer-take : (n : ℕ) (es : List StoredEvent) → answer n (take (suc n) es) ≡ answer n es
  answer-take n es = elim (Bool-cases (ltb n (length es))) [
    | inl more ↦ rw (length-take_more n es, more, take-take n es) refl
    | inr enough ↦ rw (length-take_more n es, enough, take-all (suc n) es (ground arith)) refl
  ]

  query_events-answer :
      (cursor : Option ℕ)
      → query_events f (from_cursor cursor) log
        ≡ answer (effective_limit payload.limit) (behind cursor (all_matching none))
  unfolding query_events
  query_events-answer cursor =
      ap (answer (effective_limit payload.limit))
        (query-take cursor (suc (effective_limit payload.limit)))
      ∙ answer-take (effective_limit payload.limit) (behind cursor (all_matching none))

  further :
      (cursor : Option ℕ) (id : ℕ)
      → ((a : ℕ) → All (Above a) (behind cursor (all_matching none)) → a < id)
      → behind (some id) (behind cursor (all_matching none)) ≡ behind (some id) (all_matching none)
  further none id above =
      keep-keep (after_cursor (some id)) (after_cursor none) (all_matching none) (λ e h. refl)
  further (some k) id above =
      behind-behind k id (all_matching none) (above k (Above-behind k (all_matching none)))

  module _ (o : IsOrderly f) (m : IsMinted log) where
    ascending : (cursor : Option ℕ) → IsAscending (behind cursor (all_matching none))
    ascending cursor =
        subst IsAscending (all_matching-behind cursor)
          (sort_by-IsAscending f o (matches (filter_of f payload log cursor 0)) log m)

    pages-behind :
        (fuel : ℕ) (cursor : Option ℕ)
        → length (behind cursor (all_matching none)) < fuel
        → pages fuel cursor ≡ some (behind cursor (all_matching none))
    unfolding pages
    pages-behind zero cursor lt = absurd (omega arith)
    pages-behind (suc fuel) cursor lt =
        let (n, positive) = effective_limit_positive payload.limit in
        ap (λ (out : QueryEventsOutput). follow out (λ c. pages fuel c))
          (query_events-answer cursor ∙ ap (λ (k : ℕ). answer k shown) positive)
        ∙ step n (Bool-cases (ltb (suc n) (length shown))) (λ c h. pages-behind fuel c h)
      where
        shown : List StoredEvent
        shown = behind cursor (all_matching none)

        step :
            (n : ℕ)
            → (ltb (suc n) (length shown) ≡ true) ⊎ (ltb (suc n) (length shown) ≡ false)
            → ((c : Option ℕ)
                → length (behind c (all_matching none)) < fuel
                → pages fuel c ≡ some (behind c (all_matching none)))
            → follow (answer (suc n) shown) (λ c. pages fuel c) ≡ some shown
        step n (inr enough) ih = rw enough refl
        step n (inl more) ih =
            let (id, it) = last_of n shown (ascending cursor) (ground arith) in
            let rest : behind (some id) (all_matching none) ≡ drop (suc n) shown =
              sym (further cursor id it.above) ∙ it.rest in
            let shorter : length (behind (some id) (all_matching none)) < fuel =
              rw rest (omega (arith, length-drop n shown (ground arith))) in
            rw more (
              follow-next (take (suc n) shown) (last_id (take (suc n) shown)) (λ c. pages fuel c) id
                (drop (suc n) shown) it.is_last (ih (some id) shorter ∙ ap some rest)
              ∙ ap some (take-drop (suc n) shown))

-- In a log whose events have distinct ids, a client that asks for page after page, each time from the
-- cursor that it was given, gets every event that its request matches, once, in the order of the
-- ids; it is done after at most one page more than the log has events.
pub pages-all_matching :
    (f : Formats) (payload : QueryEventsInput) (log : List StoredEvent)
    → IsOrderly f
    → IsMinted log
    → pages f payload log (suc (length log)) payload.after_event_id
      ≡ some (all_matching f payload log payload.after_event_id)
pages-all_matching f payload log o m =
    let cursor = payload.after_event_id in
    let same = all_matching-behind f payload log cursor in
    pages-behind f payload log o m (suc (length log)) cursor
      (subst (λ (es : List StoredEvent). length es < suc (length log)) same (few cursor))
    ∙ ap some (sym same)
  where
    few : (cursor : Option ℕ) → length (all_matching f payload log cursor) < suc (length log)
    few cursor = omega (
      arith,
      length-sort_by (key_ltb f) (keep (matches (filter_of f payload log cursor 0)) log),
      length-keep-le (matches (filter_of f payload log cursor 0)) log,
    )
