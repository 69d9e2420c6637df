-- ===== src/EventLog/Cursor.antt =====
-- The cursors of core/events/use_cases/query_events.py and stream_events.py, on lists in the order of
-- their ids.
use mad_edge.Prelude.{
  ℕ, zero, suc, ◌<◌, ◌≡◌, refl, sym, ap, subst, ◌∙◌, Bool, true, false, Option, none, some, List,
  [], ◌∷◌, keep, length, ltb, ltb→lt, lt→ltb, All, if◌then◌else◌, arith, take, drop, keep-keep,
}
use mathlib.Core.Option.{some-injective}
use mad_edge.Store.{StoredEvent}
use mad_edge.EventLog.{last_id, id_after, after_cursor}
use mad_edge.EventLog.Sorted.{Earlier, IsAscending}

-- The events behind a cursor.
abbrev pub behind : Option ℕ → List StoredEvent → List StoredEvent
behind cursor es = keep (after_cursor cursor) es

-- An id above `a`.
abbrev pub Above : ℕ → StoredEvent → Type 0
Above a e = (b : ℕ) × (e.event_id ≡ some b) × (a < b)

pub behind-Above : (a : ℕ) (es : List StoredEvent) → All (Above a) es → behind (some a) es ≡ es
behind-Above a [] h = refl
behind-Above a (e ∷ es) h =
    let (b, q, lt) = h.0 in
    let passes : after_cursor (some a) e ≡ true =
      subst (λ (o : Option ℕ). id_after a o ≡ true) (sym q) (lt→ltb a b lt) in
    rw passes (ap (λ l. e ∷ l) (behind-Above a es h.1))

pub Above-behind : (a : ℕ) (es : List StoredEvent) → All (Above a) (behind (some a) es)
Above-behind a [] = tt
Above-behind a (e ∷ es) = go (e.event_id) refl (Above-behind a es)
  where
    go :
        (o : Option ℕ)
        → e.event_id ≡ o
        → All (Above a) (behind (some a) es)
        → All (Above a) (if id_after a o then e ∷ behind (some a) es else behind (some a) es)
    go none q ih = ih
    go (some b) q ih = tested (ltb a b) refl ih
      where
        tested :
            (t : Bool)
            → ltb a b ≡ t
            → All (Above a) (behind (some a) es)
            → All (Above a) (if t then e ∷ behind (some a) es else behind (some a) es)
        tested true h ih = ((b, q, ltb→lt a b h), ih)
        tested false h ih = ih

pub Earlier-Above :
    (e : StoredEvent) (a : ℕ) (es : List StoredEvent)
    → e.event_id ≡ some a
    → All (λ d. Earlier e d) es
    → All (Above a) es
Earlier-Above e a [] q h = tt
Earlier-Above e a (d ∷ ds) q h =
    let (x, b, p, r, lt) = h.0 in
    ((b, r, ground (arith, some-injective x a (sym p ∙ q))), Earlier-Above e a ds q h.1)

-- What the last id of a page of an ascending list leaves behind it.
pub record IsLastOf (n : ℕ) (es : List StoredEvent) (id : ℕ) : Type 0 where
  pub is_last : last_id (take (suc n) es) ≡ some id
  pub rest : behind (some id) es ≡ drop (suc n) es
  pub above : (a : ℕ) → All (Above a) es → a < id

pub last_of :
    (n : ℕ) (es : List StoredEvent) → IsAscending es → n < length es → (id : ℕ) × IsLastOf n es id
last_of n [] h lt = absurd (omega arith)
last_of zero (e ∷ es) h lt =
    let (a, q) = h.0 in
    (
      a,
      record {
        is_last = q;
        rest = skipped a q (behind-Above a es (Earlier-Above e a es q h.1));
        above = λ x k. let (b, r, lt) = k.0 in ground (arith, some-injective b a (sym r ∙ q));
      },
    )
  where
    skipped :
        (a : ℕ) → e.event_id ≡ some a → behind (some a) es ≡ es → behind (some a) (e ∷ es) ≡ es
    skipped a q ih =
        let itself : after_cursor (some a) e ≡ false =
          subst (λ (o : Option ℕ). id_after a o ≡ false) (sym q) (ground arith) in
        rw itself ih
last_of (suc n) (e ∷ []) h lt = absurd (omega arith)
last_of (suc n) (e ∷ d ∷ ds) h lt =
    let (a, q) = h.0 in
    let (id, it) = last_of n (d ∷ ds) h.2 (omega arith) in
    let below : a < id = it.above a (Earlier-Above e a (d ∷ ds) q h.1) in
    (
      id,
      record {
        is_last = it.is_last;
        rest = skipped a id q below it.rest;
        above = λ x k. it.above x k.1;
      },
    )
  where
    skipped :
        (a id : ℕ)
        → e.event_id ≡ some a
        → a < id
        → behind (some id) (d ∷ ds) ≡ drop (suc n) (d ∷ ds)
        → behind (some id) (e ∷ d ∷ ds) ≡ drop (suc n) (d ∷ ds)
    skipped a id q lt ih =
        let passed : after_cursor (some id) e ≡ false =
          subst (λ (o : Option ℕ). id_after id o ≡ false) (sym q) (ground arith) in
        rw passed ih

-- A later cursor looks no further than behind the earlier one.
pub behind-behind :
    (k id : ℕ) (es : List StoredEvent)
    → k < id
    → behind (some id) (behind (some k) es) ≡ behind (some id) es
behind-behind k id es lt =
    keep-keep (after_cursor (some id)) (after_cursor (some k)) es (λ e h. passes e.event_id h)
  where
    passes : (o : Option ℕ) → id_after id o ≡ true → id_after k o ≡ true
    passes none h = cc
    passes (some b) h = ground arith
