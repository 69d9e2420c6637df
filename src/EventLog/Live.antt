-- ===== src/EventLog/Live.antt =====
-- The boundary between the replay and the live tail in core/events/use_cases/stream_events.py.
use mad_edge.Prelude.{
  ℕ, ◌≤◌, ◌<◌, ◌≡◌, refl, sym, ap, subst, ◌∙◌, Bool, true, false, not, Option, none, some, List, [],
  ◌∷◌, ◌++◌, keep, ltb, ltb→lt, lt→ltb, All, All-keep, if◌then◌else◌, arith, Bool-cases, inl, inr,
  keep-same, All-imp, All-append,
}
use mad_edge.Store.{StoredEvent}
use mad_edge.EventLog.{id_after, after_cursor}
use mad_edge.EventLog.Subscription.{last_seen, is_duplicate, live_part}
use mad_edge.EventLog.Sorted.{HasId, Earlier, IsAscending}
use mad_edge.EventLog.Cursor.{Above, behind, behind-Above, Earlier-Above}

-- No id is above `a`.
abbrev pub AtMost : ℕ → StoredEvent → Type 0
AtMost a e = (b : ℕ) × (e.event_id ≡ some b) × (b ≤ a)

-- What the replay from `start` of the events `seen` leaves for the live tail `later`.
pub record IsCaughtUp (start : ℕ) (seen later : List StoredEvent) : Type 0 where
  pub dedup : ℕ
  pub is_dedup : last_seen (some start) (behind (some start) seen) ≡ some dedup
  start_le : start ≤ dedup
  pub covers : All (AtMost dedup) seen
  pub leaves : live_part (some dedup) later ≡ behind (some start) later

not_duplicate :
    (dedup : ℕ) (o : Option ℕ)
    → (id : ℕ) × (o ≡ some id)
    → not (is_duplicate (some dedup) o) ≡ id_after dedup o
not_duplicate dedup none (id, e) = cc
not_duplicate dedup (some b) h = ground arith

All-HasId : (es : List StoredEvent) → IsAscending es → All HasId es
All-HasId [] h = tt
All-HasId (e ∷ es) h = (h.0, All-HasId es h.2)

pub IsAscending-left : (xs ys : List StoredEvent) → IsAscending (xs ++ ys) → IsAscending xs
IsAscending-left [] ys h = tt
IsAscending-left (x ∷ xs) ys h =
    (h.0, (All-append (Earlier x) xs ys h.1).0, IsAscending-left xs ys h.2)

behind-raise :
    (a b : ℕ) (es : List StoredEvent)
    → a < b
    → All (Above b) es
    → behind (some a) es ≡ behind (some b) es
behind-raise a b es lt h =
    behind-Above a es (All-imp (Above b) (Above a) es (λ e (c, q, k). (c, q, omega arith)) h)
    ∙ sym (behind-Above b es h)

pub caught_up :
    (start : ℕ) (seen later : List StoredEvent)
    → IsAscending (seen ++ later)
    → IsCaughtUp start seen later
caught_up start [] later h = record {
  dedup = start;
  is_dedup = refl;
  start_le = omega arith;
  covers = tt;
  leaves =
      keep-same _ _ later
        (All-imp HasId _ later (λ e i. not_duplicate start e.event_id i) (All-HasId later h));
}
caught_up start (e ∷ es) later h =
    let (a, q) = h.0 in
    elim (Bool-cases (ltb start a)) [
      | inl lt ↦ above a q (ltb→lt start a lt) (caught_up a es later h.2)
      | inr ge ↦ below a q (ground arith) (caught_up start es later h.2)
    ]
  where
    after : (a : ℕ) → e.event_id ≡ some a → All (Above a) es × All (Above a) later
    after a q = All-append (Above a) es later (Earlier-Above e a (es ++ later) q h.1)

    above :
        (a : ℕ)
        → e.event_id ≡ some a
        → start < a
        → IsCaughtUp a es later
        → IsCaughtUp start (e ∷ es) later
    above a q lt c =
        let (later_es, later_more) = after a q in
        let kept : behind (some start) (e ∷ es) ≡ e ∷ behind (some a) es =
          rw (passes a q lt) (ap (λ l. e ∷ l) (behind-raise start a es lt later_es)) in
        record {
          dedup = c.dedup;
          is_dedup = ap (last_seen (some start)) kept ∙ rw q c.is_dedup;
          start_le = omega (arith, c.start_le);
          covers = ((a, q, c.start_le), c.covers);
          leaves = c.leaves ∙ sym (behind-raise start a later lt later_more);
        }
      where
        passes : (a : ℕ) → e.event_id ≡ some a → start < a → after_cursor (some start) e ≡ true
        passes a q lt =
            subst (λ (o : Option ℕ). id_after start o ≡ true) (sym q) (lt→ltb start a lt)

    below :
        (a : ℕ)
        → e.event_id ≡ some a
        → a ≤ start
        → IsCaughtUp start es later
        → IsCaughtUp start (e ∷ es) later
    below a q le c =
        let stays : after_cursor (some start) e ≡ false =
          subst (λ (o : Option ℕ). id_after start o ≡ false) (sym q) (ground arith) in
        record {
          dedup = c.dedup;
          is_dedup = rw stays c.is_dedup;
          start_le = c.start_le;
          covers = ((a, q, omega (arith, c.start_le)), c.covers);
          leaves = c.leaves;
        }

pub live_part-covered :
    (dedup : ℕ) (es : List StoredEvent) → All (AtMost dedup) es → live_part (some dedup) es ≡ []
live_part-covered dedup [] h = refl
live_part-covered dedup (e ∷ es) h =
    let (b, q, le) = h.0 in
    let seen : not (is_duplicate (some dedup) e.event_id) ≡ false =
      subst (λ (o : Option ℕ). not (is_duplicate (some dedup) o) ≡ false) (sym q) (ground arith) in
    rw seen (live_part-covered dedup es h.1)

pub IsAscending-keep :
    (p : StoredEvent → Bool) (es : List StoredEvent) → IsAscending es → IsAscending (keep p es)
IsAscending-keep p [] h = tt
IsAscending-keep p (e ∷ es) h = go (p e) (IsAscending-keep p es h.2)
  where
    go : (b : Bool) → IsAscending (keep p es) → IsAscending (if b then e ∷ keep p es else keep p es)
    go true ih = (h.0, All-keep (λ d. Earlier e d) p es h.1, ih)
    go false ih = ih
