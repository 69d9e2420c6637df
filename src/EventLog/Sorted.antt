-- ===== src/EventLog/Sorted.antt =====
-- The order of the events that adapters/outbound/events/jsonl_event_log_query.py returns.
use text.Mathlib.TextEquality.{eq_iff}
use mad_edge.Prelude.{
  ℕ, ◌<◌, ◌≡◌, ◌≢◌, sym, ap, ◌∙◌, Bool, true, false, ◌&&◌, ◌||◌, some, List, [], ◌∷◌, String,
  str_eq, str_ltb, keep, ltb, All, All-keep, if◌then◌else◌, arith,
}
use mad_edge.Prelude.Sorting.{
  sort_by, insert_by, IsSorted, IsWeakOrder, sort_by-IsSorted, All-sort_by, All-insert_by,
}
use mad_edge.Prelude.TextOrder.{str_ltb_asym, str_ltb-IsWeakOrder, str_ltb_total}
use mad_edge.Store.{Formats, StoredEvent}
use mad_edge.EventLog.{id_text, key_ltb}

-- The text of an id has a fixed width, so that texts come in the order of the ids.
pub record IsOrderly (f : Formats) : Type 0 where
  pub uuid_text_order : (a b : ℕ) → str_ltb (f.uuid_text a) (f.uuid_text b) ≡ ltb a b

stamped_ltb : String → ℕ → String → ℕ → Bool
stamped_ltb s m t n = str_ltb s t || (str_eq s t && ltb m n)

stamped_ltb_asym :
    (s t : String) (m n : ℕ) → stamped_ltb s m t n ≡ true → stamped_ltb t n s m ≡ false
unfolding stamped_ltb
stamped_ltb_asym s t m n h =
    ground (arith, str_ltb_asym s t, eq_iff s t, eq_iff t s, str_ltb_asym t s)

stamped_not_less_trans :
    (s t r : String) (m n k : ℕ)
    → stamped_ltb t n s m ≡ false
    → stamped_ltb r k t n ≡ false
    → stamped_ltb r k s m ≡ false
unfolding stamped_ltb
stamped_not_less_trans s t r m n k h l = ground (
  arith,
  str_ltb-IsWeakOrder.not_less_trans s t r,
  eq_iff t s,
  eq_iff r t,
  eq_iff r s,
  str_ltb_total s t,
)

pub key_ltb-IsWeakOrder : (f : Formats) → IsWeakOrder (key_ltb f)
unfolding key_ltb stamped_ltb
key_ltb-IsWeakOrder f = record {
  asym = λ d e h.
      stamped_ltb_asym (id_text f d.event_id) (id_text f e.event_id) d.timestamp e.timestamp h;
  not_less_trans = λ d e g h k.
      stamped_not_less_trans (id_text f d.event_id) (id_text f e.event_id) (id_text f g.event_id)
        d.timestamp e.timestamp g.timestamp h k;
}

-- Every event has an id, and no two have the same.
abbrev pub HasId : StoredEvent → Type 0
HasId e = (id : ℕ) × (e.event_id ≡ some id)

abbrev pub IsMinted : List StoredEvent → Type 0
IsMinted [] = Unit
IsMinted (e ∷ es) = HasId e × All (λ d. e.event_id ≢ d.event_id) es × IsMinted es

-- Every later id is greater.
abbrev pub Earlier : StoredEvent → StoredEvent → Type 0
Earlier d e = (a : ℕ) × (b : ℕ) × (d.event_id ≡ some a) × (e.event_id ≡ some b) × (a < b)

abbrev pub IsAscending : List StoredEvent → Type 0
IsAscending [] = Unit
IsAscending (e ∷ es) = HasId e × All (λ d. Earlier e d) es × IsAscending es

IsMinted-keep :
    (p : StoredEvent → Bool) (es : List StoredEvent) → IsMinted es → IsMinted (keep p es)
IsMinted-keep p [] h = tt
IsMinted-keep p (e ∷ es) h = go (p e) (IsMinted-keep p es h.2)
  where
    go : (b : Bool) → IsMinted (keep p es) → IsMinted (if b then e ∷ keep p es else keep p es)
    go true ih = (h.0, All-keep (λ d. e.event_id ≢ d.event_id) p es h.1, ih)
    go false ih = ih

IsMinted-insert_by :
    (less : StoredEvent → StoredEvent → Bool) (e : StoredEvent) (es : List StoredEvent)
    → HasId e
    → All (λ d. e.event_id ≢ d.event_id) es
    → IsMinted es
    → IsMinted (insert_by less e es)
unfolding insert_by
IsMinted-insert_by less e [] i a h = (i, tt, tt)
IsMinted-insert_by less e (d ∷ es) i a h = go (less d e) (IsMinted-insert_by less e es i a.1 h.2)
  where
    go :
        (b : Bool)
        → IsMinted (insert_by less e es)
        → IsMinted (if b then d ∷ insert_by less e es else e ∷ d ∷ es)
    go false ih = (i, a, h)
    go true ih =
        (h.0, All-insert_by less (λ g. d.event_id ≢ g.event_id) e es (λ q. a.0 (sym q)) h.1, ih)

IsMinted-sort_by :
    (less : StoredEvent → StoredEvent → Bool) (es : List StoredEvent)
    → IsMinted es
    → IsMinted (sort_by less es)
unfolding sort_by
IsMinted-sort_by less [] h = tt
IsMinted-sort_by less (e ∷ es) h =
    IsMinted-insert_by less e (sort_by less es) h.0
      (All-sort_by less (λ d. e.event_id ≢ d.event_id) es h.1) (IsMinted-sort_by less es h.2)

module _ (f : Formats) (o : IsOrderly f) where
  Earlier-key :
      (d e : StoredEvent)
      → HasId d
      → HasId e
      → d.event_id ≢ e.event_id
      → key_ltb f e d ≡ false
      → Earlier d e
  unfolding key_ltb
  Earlier-key d e (a, p) (b, q) ne h = (a, b, p, q, below)
    where
      text_order : str_ltb (id_text f e.event_id) (id_text f d.event_id) ≡ ltb b a
      text_order = rw (p, q) (o.uuid_text_order b a)

      differ : a ≢ b
      differ = λ s. ne (p ∙ ap some s ∙ sym q)

      below : a < b
      below = ground (arith, text_order, differ)

  IsAscending-sorted :
      (es : List StoredEvent) → IsSorted (key_ltb f) es → IsMinted es → IsAscending es
  IsAscending-sorted [] s m = tt
  IsAscending-sorted (e ∷ es) s m = (m.0, each es s.0 m.1 m.2, IsAscending-sorted es s.1 m.2)
    where
      each :
          (ds : List StoredEvent)
          → All (λ d. key_ltb f d e ≡ false) ds
          → All (λ d. e.event_id ≢ d.event_id) ds
          → IsMinted ds
          → All (λ d. Earlier e d) ds
      each [] k a n = tt
      each (d ∷ ds) k a n = (Earlier-key e d m.0 n.0 a.0 k.0, each ds k.1 a.1 n.2)

  -- The events of a log with distinct ids, filtered and sorted, come in the order of their ids.
  pub sort_by-IsAscending :
      (p : StoredEvent → Bool) (es : List StoredEvent)
      → IsMinted es
      → IsAscending (sort_by (key_ltb f) (keep p es))
  sort_by-IsAscending p es m =
      IsAscending-sorted (sort_by (key_ltb f) (keep p es))
        (sort_by-IsSorted (key_ltb f) (key_ltb-IsWeakOrder f) (keep p es))
        (IsMinted-sort_by (key_ltb f) (keep p es) (IsMinted-keep p es m))
