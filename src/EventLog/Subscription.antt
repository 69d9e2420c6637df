-- ===== src/EventLog/Subscription.antt =====
-- core/events/use_cases/stream_events.py, and the subscription that it reads in
-- adapters/outbound/events/in_memory_event_bus.py.
use mad_edge.Prelude.{
  ℕ, zero, suc, Bool, true, false, not, ◌&&◌, Option, none, some, List, [], ◌∷◌, ◌++◌, String, keep,
  length, ltb, leb, if◌then◌else◌,
}
use mad_edge.Events.{max_queue_size}
use mad_edge.Store.{Formats, StoredEvent}
use mad_edge.EventLog.{
  same_session, same_kind, among_sessions, query, session_ids_for_agent, last_id, agent_sessions,
}

abbrev pub replay_page_size : ℕ
replay_page_size = 1000

-- An item of the bus, as `_consume` yields it, is an event; a filter is the query's first three tests.
pub record StreamEventsInput : Type 0 where
  pub session_id : Option String
  pub kind : Option String
  pub agent : Option String
  pub last_event_id : Option ℕ

unfoldable pub bus_matches :
    Option String → Option String → Option (List String) → StoredEvent → Bool
bus_matches session_id kind agents e =
    same_session session_id e && (same_kind kind e && among_sessions agents e)

-- The queue of a subscription. One that overflows is taken off the bus, and its stream ends after the
-- items that it holds.
pub record Feed : Type 0 where
  pub items : List StoredEvent
  pub subscribed : Bool

abbrev pub fresh_feed : Feed
fresh_feed = record { items = []; subscribed = true }

-- `publish`, for one subscriber
unfoldable pub offer : (StoredEvent → Bool) → StoredEvent → Feed → Feed
offer p e feed =
    if feed.subscribed && p e
    then if leb max_queue_size (length feed.items)
      then record feed { subscribed = false }
      else record feed { items = feed.items ++ e ∷ [] }
    else feed

-- What happens at a subscription: an event is published on the bus, or the stream takes an item.
pub data Turn : Type 0 where
  publishes : StoredEvent → Turn
  takes : Turn

abbrev pub take_item :
    List StoredEvent → Feed → (Feed → List StoredEvent × Feed) → List StoredEvent × Feed
take_item [] feed rest = rest feed
take_item (e ∷ es) feed rest =
    (e ∷ (rest (record feed { items = es })).0, (rest (record feed { items = es })).1)

-- `_consume`: the events that it has yielded, and what is left.
unfoldable pub run_feed : (StoredEvent → Bool) → List Turn → Feed → List StoredEvent × Feed
unfolding offer
run_feed p [] feed = ([], feed)
run_feed p (publishes e ∷ turns) feed = run_feed p turns (offer p e feed)
run_feed p (takes ∷ turns) feed = take_item feed.items feed (λ left. run_feed p turns left)

abbrev pub published : List Turn → List StoredEvent
published [] = []
published (publishes e ∷ turns) = e ∷ published turns
published (takes ∷ turns) = published turns

-- What the loop of `_replay` goes on with: the next page, from the cursor.
abbrev pub more_pages :
    List StoredEvent → Option ℕ → (ℕ → Option (List StoredEvent)) → Option (List StoredEvent)
more_pages page none next = some page
more_pages page (some cursor) next = elim (next cursor) [
  | none ↦ none
  | some rest ↦ some (page ++ rest)
]

-- The boundary at the end of the replay, and the test of a live event.
abbrev pub last_seen : Option ℕ → List StoredEvent → Option ℕ
last_seen dedup [] = dedup
last_seen dedup (e ∷ es) = last_seen (elim e.event_id [ none ↦ dedup | some id ↦ some id ]) es

abbrev pub is_duplicate : Option ℕ → Option ℕ → Bool
is_duplicate none id = false
is_duplicate (some dedup) none = false
is_duplicate (some dedup) (some id) = leb id dedup

abbrev pub live_part : Option ℕ → List StoredEvent → List StoredEvent
live_part dedup live = keep (λ (e : StoredEvent). not (is_duplicate dedup e.event_id)) live

abbrev pub replay_then_live :
    Option ℕ → Option (List StoredEvent) → List StoredEvent → Option (List StoredEvent)
replay_then_live start none live = none
replay_then_live start (some past) live = some (past ++ live_part (last_seen start past) live)

module _ (f : Formats) where
  unfoldable pub replay_query :
      StreamEventsInput → Option (List String) → ℕ → List StoredEvent → List StoredEvent
  unfolding query
  replay_query payload agents cursor log =
      query f
        (record {
          session_id = payload.session_id;
          kind = payload.kind;
          session_ids_for_agent = agents;
          since = none;
          after_event_id = some cursor;
          limit = replay_page_size;
        })
        log

  -- `_replay`, the loop on fuel; `none` means that the fuel ran out. The log may grow between two
  -- pages: the page number `n` reads `logs n`.
  unfoldable pub replay :
      ℕ
      → ℕ
      → StreamEventsInput
      → Option (List String)
      → ℕ
      → (ℕ → List StoredEvent)
      → Option (List StoredEvent)
  unfolding replay_query
  replay zero n payload agents cursor logs = none
  replay (suc fuel) n payload agents cursor logs =
      let page = replay_query payload agents cursor (logs n) in
      let rest = more_pages page (last_id page) (λ c. replay fuel (suc n) payload agents c logs) in
      if ltb (length page) replay_page_size then some page else rest

  -- `StreamEventsUseCase.execute`: what it has yielded after `turns` of its subscription, when it was
  -- called with the log `past` and its replay reads `logs`. Without a last event id there is no
  -- replay.
  unfoldable pub stream_events :
      ℕ
      → StreamEventsInput
      → List StoredEvent
      → (ℕ → List StoredEvent)
      → List Turn
      → Option (List StoredEvent)
  unfolding replay bus_matches session_ids_for_agent run_feed
  stream_events fuel payload past logs turns =
      let agents = agent_sessions f payload.agent past in
      let live =
        (run_feed (bus_matches payload.session_id payload.kind agents) turns fresh_feed).0 in
      elim payload.last_event_id [
        | none ↦ some (live_part none live)
        | some start ↦ replay_then_live (some start) (replay fuel 0 payload agents start logs) live
      ]
