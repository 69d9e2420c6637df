-- ===== src/EventLog/Stream.antt =====
-- The replay and the live tail of core/events/use_cases/stream_events.py.
use mad_edge.Prelude.{
  ℕ, zero, suc, ◌<◌, ◌≤◌, ◌⊎◌, inl, inr, leb, Bool-cases, ◌≡◌, refl, sym, ap, subst, ◌∙◌, Bool,
  true, Option, none, some, List, [], ◌∷◌, ◌++◌, String, keep, length, All, arith, length-keep-le,
  All-append, keep-append, take, drop, take-drop,
}
use mathlib.Core.List.{append_assoc}
use mad_edge.Prelude.Sorting.{sort_by}
use mad_edge.Store.{Formats, StoredEvent}
use mad_edge.EventLog.{after_cursor, agent_sessions, key_ltb}
use mad_edge.EventLog.Subscription.{
  StreamEventsInput, bus_matches, replay, last_seen, live_part, replay_then_live, stream_events,
  Turn, published, run_feed, fresh_feed, Feed,
}
use mad_edge.EventLog.Sorted.{IsAscending}
use mad_edge.EventLog.Cursor.{behind}
use mad_edge.EventLog.Live.{AtMost, IsCaughtUp, caught_up, live_part-covered, IsAscending-keep}
use mad_edge.EventLog.Replay.{Extends, replay-behind}
use mad_edge.EventLog.Feeds.{run_feed-Accounts}

-- The filter of a stream.
abbrev pub listens : Formats → StreamEventsInput → List StoredEvent → StoredEvent → Bool
listens f payload listed =
    bus_matches payload.session_id payload.kind (agent_sessions f payload.agent listed)

-- More of a list.
take-Extends : (xs : List StoredEvent) (i j : ℕ) → i ≤ j → Extends (take i xs) (take j xs)
take-Extends xs zero j le = (take j xs, refl)
take-Extends [] (suc i) zero le = absurd (omega arith)
take-Extends [] (suc i) (suc j) le = ([], refl)
take-Extends (x ∷ xs) (suc i) zero le = absurd (omega arith)
take-Extends (x ∷ xs) (suc i) (suc j) le =
    let (added, e) = take-Extends xs i j (omega arith) in (added, ap (λ l. x ∷ l) e)

at_itself : (a : ℕ) → a ≤ a
at_itself a = omega arith

in_turn : (a b c : ℕ) → a ≤ b → b ≤ c → a ≤ c
in_turn a b c h i = omega arith

below_or_next : (n m : ℕ) → n ≤ suc m → (n ≤ m) ⊎ (n ≡ suc m)
below_or_next n m h = elim (Bool-cases (leb n m)) [
  | inl le ↦ inl (ground arith)
  | inr gt ↦ inr (ground arith)
]

is_zero : (n : ℕ) → n ≤ zero → n ≡ zero
is_zero n h = omega arith

rises : (k : ℕ → ℕ) → ((n : ℕ) → k n ≤ k (suc n)) → (n m : ℕ) → n ≤ m → k n ≤ k m
rises k up n zero le = subst (λ (i : ℕ). k n ≤ k i) (is_zero n le) (at_itself (k n))
rises k up n (suc m) le = elim (below_or_next n m le) [
  | inl below ↦ in_turn (k n) (k m) (k (suc m)) (rises k up n m below) (up m)
  | inr next ↦ subst (λ (i : ℕ). k n ≤ k i) next (at_itself (k n))
]

Extends-front : (past xs ys : List StoredEvent) → Extends xs ys → Extends (past ++ xs) (past ++ ys)
Extends-front past xs ys (added, e) =
    (added, ap (λ (l : List StoredEvent). past ++ l) e ∙ sym (append_assoc past xs added))

-- The replay and the live tail together repeat nothing and leave nothing out.
joined :
    (p : StoredEvent → Bool) (start : ℕ) (past early late : List StoredEvent)
    → IsAscending ((past ++ early) ++ late)
    → behind (some start) (keep p (past ++ early))
        ++ live_part
            (last_seen (some start) (behind (some start) (keep p (past ++ early))))
            (keep p (early ++ late))
      ≡ behind (some start) (keep p ((past ++ early) ++ late))
joined p start past early late up =
    go (caught_up start seen (keep p late) (subst IsAscending whole (IsAscending-keep p _ up)))
  where
    seen : List StoredEvent
    seen = keep p (past ++ early)

    whole : keep p ((past ++ early) ++ late) ≡ seen ++ keep p late
    whole = keep-append p (past ++ early) late

    go :
        IsCaughtUp start seen (keep p late)
        → behind (some start) seen
            ++ live_part
                (last_seen (some start) (behind (some start) seen))
                (keep p (early ++ late))
          ≡ behind (some start) (keep p ((past ++ early) ++ late))
    go c =
        let early_seen : All (AtMost c.dedup) (keep p early) =
          (All-append (AtMost c.dedup) (keep p past) (keep p early) (
            subst (λ (l : List StoredEvent). All (AtMost c.dedup) l) (keep-append p past early)
              c.covers)).1 in
        ap (λ (l : List StoredEvent). behind (some start) seen ++ l)
          (ap (λ (d : Option ℕ). live_part d (keep p (early ++ late))) c.is_dedup
            ∙ ap (live_part (some c.dedup)) (keep-append p early late)
            ∙ keep-append _ (keep p early) (keep p late)
            ∙ ap (λ (l : List StoredEvent). l ++ live_part (some c.dedup) (keep p late))
                (live_part-covered c.dedup (keep p early) early_seen)
            ∙ c.leaves)
        ∙ sym (keep-append (after_cursor (some start)) seen (keep p late))
        ∙ ap (behind (some start)) (sym whole)

-- The queue of the subscription when `turns` are over.
abbrev pub feed_after : Formats → StreamEventsInput → List StoredEvent → List Turn → Feed
feed_after f payload listed turns = (run_feed (listens f payload listed) turns fresh_feed).1

-- The replay and the live tail repeat nothing, reorder nothing and miss nothing that the queue of the
-- subscription could hold. Let `past` be the events published before the call, in the order of their
-- ids, and let those published after it come in the order of their ids, above those of the past: so
-- none within the same millisecond out of order. When the replay reads its page number `n`, the log
-- holds the past and the first `k n` of the later events, which may not be on the bus yet, in any
-- order that sorting by id undoes, and it never shrinks. A stream that is called with a last event id
-- then ends its replay, with fuel for one page more than there are events, and what it has yielded is
-- the beginning of the events behind that id that match its filter, each once and in the order of
-- their ids. It is all of them if the stream is still subscribed and nothing waits in its queue; a
-- stream that falls 256 events behind is taken off the bus.
pub stream_events_lem :
    (f : Formats) (payload : StreamEventsInput) (start : ℕ) (listed past : List StoredEvent)
    (logs : ℕ → List StoredEvent) (turns : List Turn) (k : ℕ → ℕ)
    → ((n : ℕ) → sort_by (key_ltb f) (logs n) ≡ past ++ take (k n) (published turns))
    → ((n : ℕ) → k n ≤ k (suc n))
    → IsAscending (past ++ published turns)
    → payload.last_event_id ≡ some start
    → (out : List StoredEvent) × (rest : List StoredEvent) × (stream_events f
          (suc (length (past ++ published turns)))
          payload
          listed
          logs
          turns
        ≡ some out)
      × (out ++ rest
          ≡ behind (some start) (keep (listens f payload listed) (past ++ published turns)))
      × ((feed_after f payload listed turns).subscribed ≡ true
          → (feed_after f payload listed turns).items ≡ []
          → rest ≡ [])
unfolding stream_events
stream_events_lem f payload start listed past logs turns k same mono up at =
    let (m, le, q) =
      replay-behind f payload agents logs seq (past ++ later) same grows within up
        (suc (length (past ++ later))) 0 start few in
    let feed = run_feed-Accounts p turns in
    let seen = behind (some start) (keep p (seq m)) in
    let dedup = last_seen (some start) seen in
    let left = (run_feed p turns fresh_feed).1.items ++ feed.lost in
    (
      seen ++ live_part dedup yielded,
      live_part dedup left,
      ap from at ∙ ap (λ r. replay_then_live (some start) r yielded) q,
      append_assoc seen (live_part dedup yielded) (live_part dedup left)
          ∙ ap (λ (l : List StoredEvent). seen ++ l)
              (sym (keep-append _ yielded left) ∙ ap (live_part dedup) (sym feed.whole))
          ∙ all_of m,
      λ on empty.
          ap (live_part dedup)
            (ap (λ (l : List StoredEvent). l ++ feed.lost) empty ∙ (feed.nothing_lost on).0),
    )
  where
    agents : Option (List String)
    agents = agent_sessions f payload.agent listed

    p : StoredEvent → Bool
    p = listens f payload listed

    later : List StoredEvent
    later = published turns

    yielded : List StoredEvent
    yielded = (run_feed p turns fresh_feed).0

    from : Option ℕ → Option (List StoredEvent)
    from last = elim last [
      | none ↦ some (live_part none yielded)
      | some id ↦
          replay_then_live (some id)
            (replay f (suc (length (past ++ later))) 0 payload agents id logs) yielded
    ]

    seq : ℕ → List StoredEvent
    seq n = past ++ take (k n) later

    grows : (n m : ℕ) → n ≤ m → Extends (seq n) (seq m)
    grows n m le =
        Extends-front past (take (k n) later) (take (k m) later)
          (take-Extends later (k n) (k m) (rises k mono n m le))

    split : (n : ℕ) → (past ++ take (k n) later) ++ drop (k n) later ≡ past ++ later
    split n =
        append_assoc past (take (k n) later) (drop (k n) later)
        ∙ ap (λ (l : List StoredEvent). past ++ l) (take-drop (k n) later)

    within : (n : ℕ) → Extends (seq n) (past ++ later)
    within n = (drop (k n) later, sym (split n))

    few : length (behind (some start) (keep p (past ++ later))) < suc (length (past ++ later))
    few = omega (
      arith,
      length-keep-le (after_cursor (some start)) (keep p (past ++ later)),
      length-keep-le p (past ++ later),
    )

    all_of :
        (m : ℕ)
        → behind (some start) (keep p (seq m))
            ++ live_part
                (last_seen (some start) (behind (some start) (keep p (seq m))))
                (keep p later)
          ≡ behind (some start) (keep p (past ++ later))
    all_of m =
        ap
          (λ (l : List StoredEvent).
            behind (some start) (keep p (seq m))
            ++ live_part (last_seen (some start) (behind (some start) (keep p (seq m)))) (keep p l))
          (sym (take-drop (k m) later))
        ∙ joined p start past (take (k m) later) (drop (k m) later)
            (subst IsAscending (sym (split m)) up)
        ∙ ap (λ (l : List StoredEvent). behind (some start) (keep p l)) (split m)
