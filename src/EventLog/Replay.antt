-- ===== src/EventLog/Replay.antt =====
-- `_replay` of core/events/use_cases/stream_events.py: its pages, one after the other, from a log that
-- grows between them.
use mad_edge.Prelude.{
  ℕ, zero, suc, ◌<◌, ◌≤◌, ◌≡◌, refl, sym, ap, subst, ◌∙◌, Bool, ◌&&◌, Option, none, some, List, [],
  ◌∷◌, ◌++◌, String, keep, length, ltb, if◌then◌else◌, arith, Bool-cases, inl, inr, take, drop,
  take-drop, take-all, length-drop, length-take_less, keep-and, keep-append, length-append,
}
use mathlib.Core.Option.{some-injective}
use mad_edge.Prelude.Sorting.{sort_by, sort_by-keep}
use mad_edge.Store.{Formats, StoredEvent}
use mad_edge.EventLog.{EventQuery, last_id, after_cursor, matches, key_ltb, query}
use mad_edge.EventLog.Subscription.{
  StreamEventsInput, bus_matches, replay_page_size, replay_query, more_pages, replay,
}
use mad_edge.EventLog.Sorted.{key_ltb-IsWeakOrder, IsAscending}
use mad_edge.EventLog.Cursor.{behind, Above-behind, last_of, behind-behind}
use mad_edge.EventLog.Live.{IsAscending-keep, IsAscending-left}

-- `ys` is `xs` with events added at its end.
abbrev pub Extends : List StoredEvent → List StoredEvent → Type 0
Extends xs ys = (added : List StoredEvent) × (ys ≡ xs ++ added)

Extends-keep :
    (p : StoredEvent → Bool) (xs ys : List StoredEvent)
    → Extends xs ys
    → Extends (keep p xs) (keep p ys)
Extends-keep p xs ys (added, e) = (keep p added, ap (keep p) e ∙ keep-append p xs added)

take-append_less :
    (n : ℕ) (xs ys : List StoredEvent) → n ≤ length xs → take n (xs ++ ys) ≡ take n xs
take-append_less zero xs ys h = refl
take-append_less (suc n) [] ys h = absurd (omega arith)
take-append_less (suc n) (x ∷ xs) ys h = ap (λ l. x ∷ l) (take-append_less n xs ys (omega arith))

-- The page of the events known now, then what lies behind its last id when more are known.
record IsPage (n cursor id : ℕ) (known more : List StoredEvent) : Type 0 where
  whole :
      take (suc n) (behind (some cursor) known) ++ behind (some id) more ≡ behind (some cursor) more
  shorter : length (behind (some id) more) < length (behind (some cursor) more)

behind-IsPage :
    (n cursor id : ℕ) (known more : List StoredEvent)
    → Extends known more
    → IsAscending more
    → n < length (behind (some cursor) known)
    → last_id (take (suc n) (behind (some cursor) known)) ≡ some id
    → IsPage n cursor id known more
behind-IsPage n cursor id known more grown up full is_last =
    let (id', it) = last_of n shown (IsAscending-keep (after_cursor (some cursor)) more up) long in
    let same : id' ≡ id = some-injective id' id (sym it.is_last ∙ ap last_id first ∙ is_last) in
    let later : cursor < id' = it.above cursor (Above-behind cursor more) in
    let rest : behind (some id') more ≡ drop (suc n) shown =
      sym (behind-behind cursor id' more later) ∙ it.rest in
    subst (λ (i : ℕ). IsPage n cursor i known more) same
      (record {
        whole =
            ap (λ (l : List StoredEvent). take (suc n) (behind (some cursor) known) ++ l) rest
            ∙ ap (λ (l : List StoredEvent). l ++ drop (suc n) shown) (sym first)
            ∙ take-drop (suc n) shown;
        shorter = rw rest (omega (arith, length-drop n shown long));
      })
  where
    shown : List StoredEvent
    shown = behind (some cursor) more

    split : Extends (behind (some cursor) known) shown
    split = Extends-keep (after_cursor (some cursor)) known more grown

    long : n < length shown
    long =
        omega (arith, ap length split.1, length-append (behind (some cursor) known) split.0, full)

    first : take (suc n) shown ≡ take (suc n) (behind (some cursor) known)
    first =
        ap (take (suc n)) split.1
        ∙ take-append_less (suc n) (behind (some cursor) known) split.0 (omega (arith, full))

-- The page number `n` reads `logs n`, whose events in the order of their ids are `seq n`.
module _ (f : Formats) (payload : StreamEventsInput) (agents : Option (List String))
    (logs seq : ℕ → List StoredEvent) (whole : List StoredEvent)
    (same : (n : ℕ) → sort_by (key_ltb f) (logs n) ≡ seq n)
    (grows : (n m : ℕ) → n ≤ m → Extends (seq n) (seq m)) (within : (n : ℕ) → Extends (seq n) whole)
    (up : IsAscending whole) where
  abbrev pub wanted : List StoredEvent → List StoredEvent
  wanted es = keep (bus_matches payload.session_id payload.kind agents) es

  abbrev asked : ℕ → EventQuery
  asked cursor = record {
    session_id = payload.session_id;
    kind = payload.kind;
    session_ids_for_agent = agents;
    since = none;
    after_event_id = some cursor;
    limit = replay_page_size;
  }

  same_tests :
      (cursor : ℕ) (e : StoredEvent)
      → matches (asked cursor) e
        ≡ (bus_matches payload.session_id payload.kind agents e && after_cursor (some cursor) e)
  unfolding matches bus_matches
  same_tests cursor e = ground arith

  replay_query-take :
      (n cursor : ℕ)
      → replay_query f payload agents cursor (logs n)
        ≡ take replay_page_size (behind (some cursor) (wanted (seq n)))
  unfolding replay_query query
  replay_query-take n cursor = ap (take replay_page_size) (
      sort_by-keep (key_ltb f) (key_ltb-IsWeakOrder f) (matches (asked cursor)) (logs n)
      ∙ ap (keep (matches (asked cursor))) (same n)
      ∙ keep-and (bus_matches payload.session_id payload.kind agents) (after_cursor (some cursor))
          (matches (asked cursor)) (seq n) (same_tests cursor))

  abbrev tests : StoredEvent → Bool
  tests = bus_matches payload.session_id payload.kind agents

  ascending : (n : ℕ) → IsAscending (wanted (seq n))
  ascending n =
      IsAscending-keep tests (seq n)
        (IsAscending-left (seq n) (within n).0 (subst IsAscending (within n).1 up))

  -- With fuel for what is behind the cursor in the end, the replay yields what is behind it when its
  -- last page is read.
  pub replay-behind :
      (fuel n cursor : ℕ)
      → length (behind (some cursor) (wanted whole)) < fuel
      → (m : ℕ) × (n ≤ m)
        × (replay f fuel n payload agents cursor logs
            ≡ some (behind (some cursor) (wanted (seq m))))
  unfolding replay
  replay-behind zero n cursor lt = absurd (omega arith)
  replay-behind (suc fuel) n cursor lt =
      let (m, le, q) = step 999 (λ c h. replay-behind fuel (suc n) c h) in
      (m, le, ap after (replay_query-take n cursor) ∙ q)
    where
      shown : List StoredEvent
      shown = behind (some cursor) (wanted (seq n))

      later : ℕ → Option (List StoredEvent)
      later c = replay f fuel (suc n) payload agents c logs

      after : List StoredEvent → Option (List StoredEvent)
      after page =
          if ltb (length page) replay_page_size
          then some page
          else more_pages page (last_id page) later

      next : Option (List StoredEvent) → List StoredEvent → Option (List StoredEvent)
      next r page = elim r [ none ↦ none | some rest ↦ some (page ++ rest) ]

      more :
          (page : List StoredEvent) (c : Option ℕ) (id : ℕ) (rest : List StoredEvent)
          → c ≡ some id
          → later id ≡ some rest
          → more_pages page c later ≡ some (page ++ rest)
      more page none id rest p q = cc
      more page (some x) id rest p q = ap (λ r. next r page) (ap later (some-injective x id p) ∙ q)

      step :
          (k : ℕ)
          → ((c : ℕ)
              → length (behind (some c) (wanted whole)) < fuel
              → (m : ℕ) × (suc n ≤ m) × (later c ≡ some (behind (some c) (wanted (seq m)))))
          → (m : ℕ) × (n ≤ m)
            × ((if ltb (length (take (suc k) shown)) (suc k)
                  then some (take (suc k) shown)
                  else more_pages (take (suc k) shown) (last_id (take (suc k) shown)) later)
                ≡ some (behind (some cursor) (wanted (seq m))))
      step k ih = elim (Bool-cases (ltb (length shown) (suc k))) [
        | inl short ↦ (
          n,
          omega arith,
          rw (length-take_less (suc k) shown, short)
              (ap some (take-all (suc k) shown (ground arith))),
        )
        | inr full ↦
            let long : k < length shown = ground arith in
            let (id, it) =
              last_of k shown
                (IsAscending-keep (after_cursor (some cursor)) (wanted (seq n)) (ascending n))
                long in
            let in_the_end =
              behind-IsPage k cursor id (wanted (seq n)) (wanted whole)
                (Extends-keep tests (seq n) whole (within n)) (IsAscending-keep tests whole up) long
                it.is_last in
            let (m, le, q) = ih id (omega (arith, in_the_end.shorter)) in
            let now =
              behind-IsPage k cursor id (wanted (seq n)) (wanted (seq m))
                (Extends-keep tests (seq n) (seq m) (grows n m (omega arith))) (ascending m) long
                it.is_last in
            (
              m,
              omega arith,
              rw (length-take_less (suc k) shown, full)
                  (more (take (suc k) shown) (last_id (take (suc k) shown)) id
                      (behind (some id) (wanted (seq m))) it.is_last q
                    ∙ ap some now.whole),
            )
      ]
