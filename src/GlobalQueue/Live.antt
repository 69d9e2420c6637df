-- ===== src/GlobalQueue/Live.antt =====
-- The sessions that core/orchestration/use_cases/get_global_queue.py shows: those of the index with
-- queued or in-flight tasks.
use mad_edge.Prelude.{
  ◌≡◌, refl, sym, subst, ap, ◌∙◌, Bool, true, false, not, Option, none, some, List, [], ◌∷◌, ◌++◌,
  String, str_eq-cases, str_ltb, keep, elem, Member, inl, inr, ◌⊎◌, if◌then◌else◌, arith,
}
use mathlib.Core.Option.{some-injective}
use mad_edge.Prelude.Dict.{Dict, lookup, values, keys}
use mad_edge.Prelude.Sorting.{sort_by-Member}
use mad_edge.Tasks.{Task}
use mad_edge.Sessions.{Session}
use mad_edge.Projection.{
  Projection, queued, list_or_empty, is_empty, add_id, id_set, pending_session_ids,
}
use mad_edge.GlobalQueue.{
  View, view, not_in_index, many_in_flight, key_error, ◌>>=◌, add_session, live_sessions,
}

-- Each session stands under its own id, once.
abbrev pub IsIndex : Dict Session → Type 0
IsIndex [] = Unit
IsIndex ((sid, s) ∷ rest) = (s.session_id ≡ sid) × (lookup sid rest ≡ none) × IsIndex rest

pub values-lookup :
    (index : Dict Session) (s : Session)
    → IsIndex index
    → Member s (values index)
    → lookup s.session_id index ≡ some s
unfolding lookup
values-lookup [] s i m = absurd m
values-lookup ((sid, x) ∷ rest) s i (inl e) = elim (str_eq-cases sid s.session_id) [
  | inl (same, q) ↦ rw same (ap some (sym e))
  | inr (other, q) ↦ absurd (q (sym i.0 ∙ ap (λ (y : Session). y.session_id) (sym e)))
]
values-lookup ((sid, x) ∷ rest) s i (inr m) =
    let ih = values-lookup rest s i.2 m in
    elim (str_eq-cases sid s.session_id) [
      | inl (same, q) ↦
          let gone : lookup s.session_id rest ≡ none = subst (λ k. lookup k rest ≡ none) q i.1 in
          absurd (ground arith)
      | inr (other, q) ↦ rw other ih
    ]

pub lookup-values :
    (index : Dict Session) (sid : String) (s : Session)
    → IsIndex index
    → lookup sid index ≡ some s
    → Member s (values index) × (s.session_id ≡ sid)
unfolding lookup
lookup-values [] sid s i e = cc
lookup-values ((k, x) ∷ rest) sid s i e = elim (str_eq-cases k sid) [
  | inl (same, q) ↦
      let found : some x ≡ some s = ground arith in
      let it = some-injective x s found in
      (inl (sym it), subst (λ (y : Session). y.session_id ≡ sid) it (i.0 ∙ q))
  | inr (other, q) ↦
      let later : lookup sid rest ≡ some s = ground arith in
      let (m, own) = lookup-values rest sid s i.2 later in (inr m, own)
]

pub then_view :
    {A B : Type 0} (m : View A) (f : A → View B) (b : B)
    → (m >>= f) ≡ view b
    → (a : A) × (m ≡ view a) × (f a ≡ view b)
then_view (view a) f b h = (a, refl, h)
then_view (not_in_index sid) f b h = cc
then_view (many_in_flight ts) f b h = cc
then_view key_error f b h = cc

pub view-injective : {A : Type 0} (a b : A) → view a ≡ view b → a ≡ b
view-injective a b e = cc

-- The live sessions are those of the index under the given ids.
abbrev IsLive : Dict Session → List String → Session → Type 0
IsLive index sids s = (sid : String) × Member sid sids × (lookup sid index ≡ some s)

pub add_session-view :
    (sid : String) (found : Option Session) (rest : View (Dict Session)) (d : Dict Session)
    → add_session sid found rest ≡ view d
    → (s : Session) × (d' : Dict Session) × (found ≡ some s)
      × (rest ≡ view d')
      × (d ≡ (sid, s) ∷ d')
add_session-view sid none rest d e = cc
add_session-view sid (some s) rest d e =
    let (d', p, q) = then_view rest _ d e in (s, d', refl, p, sym (view-injective _ d q))

pub live_sessions-IsLive :
    (index : Dict Session) (sids : List String) (d : Dict Session)
    → live_sessions index sids ≡ view d
    → (s : Session) → Member s (values d)
    → IsLive index sids s
unfolding live_sessions
live_sessions-IsLive index [] d e s m =
    absurd (subst (λ (x : Dict Session). Member s (values x)) (sym (view-injective [] d e)) m)
live_sessions-IsLive index (sid ∷ sids) d e s m =
    let (x, d', p, q, r) = add_session-view sid (lookup sid index) (live_sessions index sids) d e in
    place d' x p (subst (λ (y : Dict Session). Member s (values y)) r m)
      (live_sessions-IsLive index sids d' q s)
  where
    place :
        (d' : Dict Session) (x : Session)
        → lookup sid index ≡ some x
        → Member s (x ∷ values d')
        → (Member s (values d') → IsLive index sids s)
        → IsLive index (sid ∷ sids) s
    place d' x p (inl same) later = (sid, inl refl, p ∙ ap some (sym same))
    place d' x p (inr m) later = let (k, among, found) = later m in (k, inr among, found)

pub IsLive-live_sessions :
    (index : Dict Session) (sids : List String) (d : Dict Session)
    → live_sessions index sids ≡ view d
    → (s : Session) (sid : String) → Member sid sids
    → lookup sid index ≡ some s
    → Member s (values d)
unfolding live_sessions
IsLive-live_sessions index [] d e s k m found = absurd m
IsLive-live_sessions index (sid ∷ sids) d e s k m found =
    let (x, d', p, q, r) = add_session-view sid (lookup sid index) (live_sessions index sids) d e in
    subst (λ (y : Dict Session). Member s (values y)) (sym r)
      (place x d' p m (λ n. IsLive-live_sessions index sids d' q s k n found))
  where
    place :
        (x : Session) (d' : Dict Session)
        → lookup sid index ≡ some x
        → Member k (sid ∷ sids)
        → (Member k sids → Member s (values d'))
        → Member s (x ∷ values d')
    place x d' p (inl same) later =
        inl (some-injective s x (sym found ∙ subst (λ j. lookup j index ≡ some x) (sym same) p))
    place x d' p (inr n) later = inr (later n)

Member-append_left : {A : Type 0} (x : A) (ys zs : List A) → Member x ys → Member x (ys ++ zs)
Member-append_left x [] zs m = absurd m
Member-append_left x (y ∷ ys) zs (inl e) = inl e
Member-append_left x (y ∷ ys) zs (inr m) = inr (Member-append_left x ys zs m)

elem-Member : (x : String) (ys : List String) → elem x ys ≡ true → Member x ys
elem-Member x [] h = cc
elem-Member x (y ∷ ys) h = elim (str_eq-cases y x) [
  | inl (same, q) ↦ inl (sym q)
  | inr (other, q) ↦ inr (elem-Member x ys (ground arith))
]

Member-add_id : (x y : String) (ys : List String) → (x ≡ y) ⊎ Member x ys → Member x (add_id y ys)
Member-add_id x y ys m = go (elem y ys) refl m
  where
    go : (b : Bool) → elem y ys ≡ b → (x ≡ y) ⊎ Member x ys → Member x (if b then ys else y ∷ ys)
    go true e (inl q) = subst (λ k. Member k ys) (sym q) (elem-Member y ys e)
    go true e (inr m) = m
    go false e m = m

Member-id_set : (x : String) (ys : List String) → Member x ys → Member x (id_set ys)
Member-id_set x [] m = m
Member-id_set x (y ∷ ys) (inl e) = Member-add_id x y (id_set ys) (inl e)
Member-id_set x (y ∷ ys) (inr m) = Member-add_id x y (id_set ys) (inr (Member-id_set x ys m))

kept_key :
    (queues : Dict (List Task)) (sid : String) (t : Task) (ts : List Task)
    → lookup sid queues ≡ some (t ∷ ts)
    → Member sid (keys (keep (λ entry. not (is_empty entry.1)) queues))
unfolding lookup
kept_key [] sid t ts e = cc
kept_key ((k, q) ∷ queues) sid t ts e = elim (str_eq-cases k sid) [
  | inl (same, p) ↦
      let found : some q ≡ some (t ∷ ts) = ground arith in
      here q (some-injective q (t ∷ ts) found) p
  | inr (other, p) ↦
      let later : lookup sid queues ≡ some (t ∷ ts) = ground arith in
      further q (kept_key queues sid t ts later)
]
  where
    here :
        (q : List Task)
        → q ≡ t ∷ ts
        → k ≡ sid
        → Member sid
            (keys (keep (λ (entry : String × List Task). not (is_empty entry.1)) ((k, q) ∷ queues)))
    here [] e p = absurd (ground arith)
    here (x ∷ xs) e p = inl (sym p)

    further :
        (q : List Task)
        → Member sid (keys (keep (λ (entry : String × List Task). not (is_empty entry.1)) queues))
        → Member sid
            (keys (keep (λ (entry : String × List Task). not (is_empty entry.1)) ((k, q) ∷ queues)))
    further [] m = m
    further (x ∷ xs) m = inr m

-- A session with a queued task is pending.
pub queued-pending :
    (p : Projection) (sid : String) (t : Task) (ts : List Task)
    → queued p sid ≡ t ∷ ts
    → Member sid (pending_session_ids p)
unfolding queued pending_session_ids
queued-pending p sid t ts e = sort_by-Member str_ltb sid _ (
    Member-id_set sid _ (
      Member-append_left sid _ _ (kept_key p.queues sid t ts (some_queue (lookup sid p.queues) e))))
  where
    some_queue : (o : Option (List Task)) → list_or_empty o ≡ t ∷ ts → o ≡ some (t ∷ ts)
    some_queue none e = absurd (ground arith)
    some_queue (some q) e = ap some e
