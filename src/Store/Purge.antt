-- ===== src/Store/Purge.antt =====
-- `purge_expired_logs` of adapters/outbound/persistence/jsonl_session_repository.py.
use mad_edge.Prelude.{
  ℕ, zero, suc, ◌≡◌, refl, sym, ap, ◌∙◌, Bool, true, false, not, ◌&&◌, Option, none, some, ◌+◌, ◌*◌,
  ◌<◌, ◌≤◌, starts_with, List, [], ◌∷◌, String, str_eq-cases, str_eq_refl, elem, keep,
  if◌then◌else◌, arith, inl, inr, ◌⊎◌, Member, ◌==◌,
}
use mad_edge.Prelude.Dict.{lookup, remove, keys, lookup-remove}
use mad_edge.Prelude.Sorting.{sort_by, sort_by-Member}
use mad_edge.Policy.{day}
use mad_edge.Json.{Json, null, flag, num, text, arr, obj, Fields, get}
use mad_edge.Store.{
  Formats, Logs, read_events, path_ltb, delete_logs, before_cutoff, later_time, last_timestamp,
  is_expired, purge_expired_logs,
}

lookup-delete_logs :
    (sids : List String) (logs : Logs) (sid : String)
    → lookup sid (delete_logs sids logs) ≡ (if elem sid sids then none else lookup sid logs)
unfolding delete_logs
lookup-delete_logs [] logs sid = refl
lookup-delete_logs (k ∷ sids) logs sid =
    ground (arith, lookup-delete_logs sids (remove k logs) sid, lookup-remove k sid logs)

elem-keep :
    (p : String → Bool) (x : String) (ys : List String) → elem x (keep p ys) ≡ (p x && elem x ys)
elem-keep p x [] = ground arith
elem-keep p x (y ∷ ys) = elim (str_eq-cases y x) [
  | inl (e, same) ↦ ground (arith, elem-keep p x ys, ap p same)
  | inr (e, ne) ↦ ground (arith, elem-keep p x ys)
]

Member-elem : (x : String) (ys : List String) → Member x ys → elem x ys ≡ true
Member-elem x [] m = absurd m
Member-elem x (y ∷ ys) (inl e) =
    let q = str_eq_refl x in
    elim (str_eq-cases y x) [ inl (f, same) ↦ ground arith | inr (f, ne) ↦ absurd (ne (sym e)) ]
Member-elem x (y ∷ ys) (inr m) = ground (arith, Member-elem x ys m)

-- A log that can be looked up is among the files.
lookup-keys : (sid : String) (logs : Logs) → (lookup sid logs ≡ none) ⊎ Member sid (keys logs)
unfolding lookup
lookup-keys sid [] = inl refl
lookup-keys sid ((k, v) ∷ logs) = elim (str_eq-cases k sid) [
  | inl (e, same) ↦ inr (inl (sym same))
  | inr (e, ne) ↦ elim (lookup-keys sid logs) [ inl gone ↦ inl (rw e gone) | inr m ↦ inr (inr m) ]
]

lookup-purge_expired_logs :
    (f : Formats) (now retention_days : ℕ) (logs : Logs) (sid : String)
    → lookup sid (purge_expired_logs f now retention_days logs).0 ≡ (
        if not (retention_days == 0) && is_expired f now retention_days logs sid
        then none
        else lookup sid logs)
unfolding purge_expired_logs
lookup-purge_expired_logs f now zero logs sid = refl
lookup-purge_expired_logs f now (suc n) logs sid =
    let sorted = sort_by path_ltb (keys logs) in
    let some_days : (suc n == 0) ≡ false = ground arith in
    rw some_days (
      lookup-delete_logs (keep (is_expired f now (suc n) logs) sorted) logs sid
      ∙ decided (is_expired f now (suc n) logs sid) (elem sid sorted)
          (elem-keep (is_expired f now (suc n) logs) sid sorted) (listed (lookup-keys sid logs)))
  where
    listed :
        (lookup sid logs ≡ none) ⊎ Member sid (keys logs)
        → (lookup sid logs ≡ none) ⊎ (elem sid (sort_by path_ltb (keys logs)) ≡ true)
    listed (inl e) = inl e
    listed (inr m) = inr (Member-elem sid _ (sort_by-Member path_ltb sid (keys logs) m))

    decided :
        (expired among : Bool)
        → elem sid (keep (is_expired f now (suc n) logs) (sort_by path_ltb (keys logs)))
          ≡ (expired && among)
        → (lookup sid logs ≡ none) ⊎ (among ≡ true)
        → (if elem sid (keep (is_expired f now (suc n) logs) (sort_by path_ltb (keys logs)))
            then none
            else lookup sid logs)
          ≡ (if expired then none else lookup sid logs)
    decided expired among e (inl gone) = rw (e, gone) (both expired among)
      where
        both :
            (a b : Bool)
            → ◌≡◌ {A = Option (List Fields)}
                (if a && b then none else none)
                (if a then none else none)
        both true true = refl
        both true false = refl
        both false b = refl
    decided true true e (inr found) = rw e refl
    decided true false e (inr found) = cc
    decided false b e (inr found) = rw e refl

-- The time of a line, if it has one that can be parsed, and that of the last line which has one.
abbrev pub time_of : Formats → Option Json → Option ℕ
time_of f (some (text s)) = f.parse_iso s
time_of f _ = none

abbrev or_else : Option ℕ → Option ℕ → Option ℕ
or_else (some t) o = some t
or_else none o = o

abbrev pub last_time : Formats → List Fields → Option ℕ
last_time f [] = none
last_time f (e ∷ es) = or_else (last_time f es) (time_of f (get "timestamp" e))

last_timestamp_lem :
    (f : Formats) (es : List Fields) (last : Option ℕ)
    → last_timestamp f es last ≡ or_else (last_time f es) last
unfolding last_timestamp
last_timestamp_lem f [] last = refl
last_timestamp_lem f (e ∷ es) last =
    last_timestamp_lem f es (later_time f (get "timestamp" e) last)
    ∙ go (last_time f es) (get "timestamp" e)
  where
    parsed_or : (o last : Option ℕ) → (elim o [ none ↦ last | some t ↦ some t ]) ≡ or_else o last
    parsed_or none last = refl
    parsed_or (some t) last = refl

    go :
        (o : Option ℕ) (j : Option Json)
        → or_else o (later_time f j last) ≡ or_else (or_else o (time_of f j)) last
    go (some t) j = refl
    go none none = refl
    go none (some null) = refl
    go none (some (flag b)) = refl
    go none (some (num n)) = refl
    go none (some (arr js)) = refl
    go none (some (obj fs)) = refl
    go none (some (text x)) = parsed_or (f.parse_iso x) last

-- The last event of the log is further back than the retention allows, or not, or has no time.
abbrev pub IsOld : ℕ → ℕ → Option ℕ → Type 0
IsOld now retention_days none = ⊥
IsOld now retention_days (some t) = t + retention_days * day < now

abbrev pub IsRecent : ℕ → ℕ → Option ℕ → Type 0
IsRecent now retention_days none = Unit
IsRecent now retention_days (some t) = now ≤ t + retention_days * day

before_cutoff-IsOld :
    (now days : ℕ) (o : Option ℕ)
    → (IsOld now days o → before_cutoff now days o ≡ true)
      × (IsRecent now days o → before_cutoff now days o ≡ false)
before_cutoff-IsOld now days none = (λ h. absurd h, λ h. refl)
before_cutoff-IsOld now days (some t) = (λ h. ground (arith, h), λ h. ground (arith, h))

-- A purge with a positive number of days deletes the log of each session whose id does not start with
-- `__` and whose last event with a time lies further back than that. It keeps every other log as it
-- is: those of the reserved ids, those whose last event is not that far back and those without a
-- time; and with 0 days it keeps all.
pub purge_expired_logs_lem :
    (f : Formats) (now retention_days : ℕ) (logs : Logs) (sid : String)
    → ((0 < retention_days)
        → (starts_with sid "__" ≡ false)
        → IsOld now retention_days (last_time f (read_events logs sid))
        → lookup sid (purge_expired_logs f now retention_days logs).0 ≡ none)
      × ((retention_days ≡ 0)
            ⊎ ((starts_with sid "__" ≡ true)
                ⊎ IsRecent now retention_days (last_time f (read_events logs sid)))
          → lookup sid (purge_expired_logs f now retention_days logs).0 ≡ lookup sid logs)
unfolding is_expired
purge_expired_logs_lem f now days logs sid = (
  λ some_days real old.
      lookup-purge_expired_logs f now days logs sid
      ∙ (let q = cutoff.0 old in
          let counts : (days == 0) ≡ false = ground (arith, some_days) in
          rw (counts, real, q) refl),
  λ spared. lookup-purge_expired_logs f now days logs sid ∙ kept spared,
)
  where
    shown : last_timestamp f (read_events logs sid) none ≡ last_time f (read_events logs sid)
    shown =
        last_timestamp_lem f (read_events logs sid) none ∙ same (last_time f (read_events logs sid))
      where
        same : (o : Option ℕ) → or_else o none ≡ o
        same none = refl
        same (some t) = refl

    late : Bool
    late = before_cutoff now days (last_timestamp f (read_events logs sid) none)

    cutoff :
        (IsOld now days (last_time f (read_events logs sid)) → late ≡ true)
        × (IsRecent now days (last_time f (read_events logs sid)) → late ≡ false)
    cutoff =
        let (a, b) = before_cutoff-IsOld now days (last_time f (read_events logs sid)) in
        (λ h. ap (before_cutoff now days) shown ∙ a h, λ h. ap (before_cutoff now days) shown ∙ b h)

    kept :
        (days ≡ 0)
          ⊎ ((starts_with sid "__" ≡ true) ⊎ IsRecent now days (last_time f (read_events logs sid)))
        → (if not (days == 0) && (not (starts_with sid "__") && late)
            then none
            else lookup sid logs)
          ≡ lookup sid logs
    kept (inl e) = ground (arith, e)
    kept (inr (inl e)) = ground (arith, e)
    kept (inr (inr r)) = ground (arith, cutoff.1 r)
