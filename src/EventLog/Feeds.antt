-- ===== src/EventLog/Feeds.antt =====
-- The queue of a subscription in adapters/outbound/events/in_memory_event_bus.py.
use mad_edge.Prelude.{
  ◌≡◌, refl, sym, ap, ◌∙◌, Bool, true, false, ◌&&◌, List, [], ◌∷◌, ◌++◌, keep, length, leb,
  if◌then◌else◌,
}
use mathlib.Core.List.{append_assoc}
use mad_edge.Store.{StoredEvent}
use mad_edge.Events.{max_queue_size}
use mad_edge.EventLog.Subscription.{
  Feed, fresh_feed, offer, Turn, publishes, takes, take_item, run_feed, published,
}

module _ (p : StoredEvent → Bool) where
  -- What was offered is what was yielded, then what waits, then what was lost.
  pub record Accounts (feed : Feed) (offered : List StoredEvent) (r : List StoredEvent × Feed)
      : Type 0 where
    pub lost : List StoredEvent
    pub whole : feed.items ++ offered ≡ r.0 ++ (r.1.items ++ lost)
    pub nothing_lost : r.1.subscribed ≡ true → (lost ≡ []) × (feed.subscribed ≡ true)

  abbrev feed_of : List StoredEvent → Bool → Feed
  feed_of items on = record { items = items; subscribed = on }

  takes_one :
      (offered : List StoredEvent) (turns : List Turn) (on : Bool)
      → ((items : List StoredEvent)
          → Accounts (feed_of items on) offered (run_feed p turns (feed_of items on)))
      → (items : List StoredEvent)
      → Accounts
          (feed_of items on)
          offered
          (take_item items (feed_of items on) (λ left. run_feed p turns left))
  takes_one offered turns on ih [] = ih []
  takes_one offered turns on ih (e ∷ es) =
      let r = ih es in
      record { lost = r.lost; whole = ap (λ l. e ∷ l) r.whole; nothing_lost = r.nothing_lost }

  removed :
      (offered : List StoredEvent) (turns : List Turn) (items : List StoredEvent)
      → Accounts (feed_of items false) offered (run_feed p turns (feed_of items false))
  unfolding run_feed offer
  removed offered [] items = record { lost = offered; whole = refl; nothing_lost = λ on. cc }
  removed offered (publishes e ∷ turns) items = removed offered turns items
  removed offered (takes ∷ turns) items =
      takes_one offered turns false (λ l. removed offered turns l) items

  accounts :
      (turns : List Turn) (items : List StoredEvent)
      → Accounts
          (feed_of items true)
          (keep p (published turns))
          (run_feed p turns (feed_of items true))
  unfolding run_feed offer
  accounts [] items = record { lost = []; whole = refl; nothing_lost = λ on. (refl, refl) }
  accounts (publishes e ∷ turns) items =
      offered (p e) (leb max_queue_size (length items)) (accounts turns items)
        (accounts turns (items ++ e ∷ []))
    where
      rest : List StoredEvent
      rest = keep p (published turns)

      offered :
          (fits full : Bool)
          → Accounts (feed_of items true) rest (run_feed p turns (feed_of items true))
          → Accounts
              (feed_of (items ++ e ∷ []) true)
              rest
              (run_feed p turns (feed_of (items ++ e ∷ []) true))
          → Accounts (feed_of items true) (if fits then e ∷ rest else rest) (
              run_feed p turns (
                if true && fits
                then if full then feed_of items false else feed_of (items ++ e ∷ []) true
                else feed_of items true))
      offered false full same more = same
      offered true true same more =
          let r = removed (e ∷ rest) turns items in
          record {
            lost = r.lost;
            whole = r.whole;
            nothing_lost = λ on. let wrong : false ≡ true = (r.nothing_lost on).1 in cc;
          }
      offered true false same more = record {
        lost = more.lost;
        whole = sym (append_assoc items (e ∷ []) rest) ∙ more.whole;
        nothing_lost = more.nothing_lost;
      }
  accounts (takes ∷ turns) items =
      takes_one (keep p (published turns)) turns true (λ l. accounts turns l) items

  -- The events on the bus that match are those that the stream took, in their order, then those that
  -- wait, then those that came when the queue was full or gone: none while the stream is subscribed.
  pub run_feed-Accounts :
      (turns : List Turn)
      → Accounts fresh_feed (keep p (published turns)) (run_feed p turns fresh_feed)
  run_feed-Accounts turns = accounts turns []
