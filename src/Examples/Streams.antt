-- ===== src/Examples/Streams.antt =====
-- Examples of the queries and the stream of events.
use mad_edge.Prelude.{
  ◌<◌, ◌≤◌, ◌++◌, take, true, zero, ◌/◌, ◌%◌, ◌^◌, ℕ, suc, ◌≡◌, ◌≢◌, refl, Option, none, some, List,
  [], ◌∷◌, String, length, keep, arith,
}
use mathlib.Core.Option.{some-injective}
use mad_edge.Json.{text, end}
use mad_edge.Prelude.Sorting.{sort_by, insert_by}
use mad_edge.Store.{StoredEvent}
use mad_edge.EventLog.{QueryEventsInput, key_ltb}
use mad_edge.EventLog.Subscription.{
  StreamEventsInput, stream_events, Turn, publishes, takes, published,
}
use mad_edge.EventLog.Sorted.{IsMinted, IsAscending}
use mad_edge.EventLog.Cursor.{behind}
use mad_edge.EventLog.Paging.{all_matching, pages, pages-all_matching}
use mad_edge.EventLog.Ids.{new_event_id}
use mad_edge.EventLog.Ids.Layout.{new_event_id_lem}
use mad_edge.EventLog.Stream.{listens, feed_after, stream_events_lem}
use mad_edge.Examples.Formats.{formats, formats-IsOrderly}

abbrev event : ℕ → String → StoredEvent
event id sid = record {
  event_id = some id;
  session_id = sid;
  type = text "agent.output";
  body = end;
  timestamp = id;
}

apart : (a b : ℕ) → (a ≡ b → ⊥) → ◌≢◌ {A = Option ℕ} (some a) (some b)
apart a b ne e = ne (some-injective a b e)

-- Written out of order, as the files are read one after the other.
abbrev log : List StoredEvent
log = event 1 "a" ∷ event 4 "a" ∷ event 2 "b" ∷ event 3 "b" ∷ []

abbrev request : QueryEventsInput
request = record {
  session_id = none;
  kind = none;
  agent = none;
  since = some 2;
  after_event_id = none;
  limit = 1;
}

pages-all_matching_example :
    pages formats request log (suc (length log)) request.after_event_id
    ≡ some (all_matching formats request log request.after_event_id)
pages-all_matching_example = pages-all_matching formats request log formats-IsOrderly minted
  where
    minted : IsMinted log
    minted = (
      (1, refl),
      (
        apart 1 4 (λ e. omega arith),
        (apart 1 2 (λ e. omega arith), (apart 1 3 (λ e. omega arith), tt)),
      ),
      (
        (4, refl),
        (apart 4 2 (λ e. omega arith), (apart 4 3 (λ e. omega arith), tt)),
        ((2, refl), (apart 2 3 (λ e. omega arith), tt), ((3, refl), tt, tt)),
      ),
    )

abbrev listener : StreamEventsInput
listener = record { session_id = some "a"; kind = none; agent = none; last_event_id = some 1 }

-- The first page finds the event written before it is published; then the stream falls behind by one.
abbrev turns : List Turn
turns =
    publishes (event 2 "a") ∷ publishes (event 3 "b") ∷ takes ∷ publishes (event 4 "a") ∷ takes ∷ []

abbrev known : ℕ → ℕ
known zero = 1
known (suc n) = 2

abbrev pages_read : ℕ → List StoredEvent
pages_read zero = event 2 "a" ∷ event 1 "a" ∷ []
pages_read (suc n) = event 3 "b" ∷ event 2 "a" ∷ event 1 "a" ∷ []

stream_events_lem_example :
    (out : List StoredEvent) × (rest : List StoredEvent) × (stream_events formats 5 listener
        (event 1 "a" ∷ [])
        pages_read
        turns
      ≡ some out)
    × (out ++ rest
        ≡ behind (some 1) (
            keep
              (listens formats listener (event 1 "a" ∷ []))
              (event 1 "a" ∷ event 2 "a" ∷ event 3 "b" ∷ event 4 "a" ∷ [])))
    × ((feed_after formats listener (event 1 "a" ∷ []) turns).subscribed ≡ true
        → (feed_after formats listener (event 1 "a" ∷ []) turns).items ≡ []
        → rest ≡ [])
unfolding sort_by insert_by key_ltb
stream_events_lem_example =
    stream_events_lem formats listener 1 (event 1 "a" ∷ []) (event 1 "a" ∷ []) pages_read turns
      known sorted grows up refl
  where
    sorted :
        (n : ℕ)
        → sort_by (key_ltb formats) (pages_read n)
          ≡ (event 1 "a" ∷ []) ++ take (known n) (published turns)
    sorted zero = refl
    sorted (suc n) = refl

    grows : (n : ℕ) → known n ≤ known (suc n)
    grows zero = omega arith
    grows (suc n) = omega arith

    up : IsAscending (event 1 "a" ∷ event 2 "a" ∷ event 3 "b" ∷ event 4 "a" ∷ [])
    up = (
      (1, refl),
      (
        (1, 2, refl, refl, omega arith),
        ((1, 3, refl, refl, omega arith), ((1, 4, refl, refl, omega arith), tt)),
      ),
      (
        (2, refl),
        ((2, 3, refl, refl, omega arith), ((2, 4, refl, refl, omega arith), tt)),
        ((3, refl), ((3, 4, refl, refl, omega arith), tt), ((4, refl), tt, tt)),
      ),
    )

-- An id of November 2023.
abbrev minted_id : ℕ
minted_id = new_event_id 1_700_000_000_000 5 9

new_event_id_lem_example :
    (minted_id < 2 ^ 128)
    × (minted_id / 2 ^ 80 ≡ 1_700_000_000_000)
    × (minted_id / 2 ^ 76 % 2 ^ 4 ≡ 7)
    × (minted_id / 2 ^ 64 % 2 ^ 12 ≡ 5)
    × (minted_id / 2 ^ 62 % 2 ^ 2 ≡ 2)
    × (minted_id % 2 ^ 62 ≡ 9)
    × ((ms a b : ℕ)
        → ms < 1_700_000_000_000
        → a < 2 ^ 12
        → b < 2 ^ 62
        → new_event_id ms a b < minted_id)
new_event_id_lem_example =
    new_event_id_lem 1_700_000_000_000 5 9 (omega arith) (omega arith) (omega arith)
