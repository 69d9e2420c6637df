-- ===== src/Policy/Serial/Accepted.antt =====
-- `policy_from_dict` of core/orchestration/domain/dispatch_policy.py: what it accepts.
use mad_edge.Prelude.{
  ℕ, ◌%◌, ◌≤◌, ◌<◌, ◌≡◌, ◌≢◌, refl, Bool, true, false, Option, none, some, List, [], ◌∷◌, String,
  str_eq, str_eq_refl, leb→le, any, All, arith, if◌then◌else◌, subst,
}
use mad_edge.Json.{Json, null, flag, num, text, arr, obj, Items, nil, cons, Fields, end, field, get}
use mad_edge.Policy.{
  Weekday, mon, tue, wed, thu, fri, sat, sun, Days, all_days, Zones, ZoneLookup, found, not_found,
  malformed, Window, DispatchPolicy, immediate, work_window, manual, minute, day,
}
use mad_edge.Policy.Serial.{
  Parsed, parsed, invalid, crash, ◌>>=◌, ℤ, pos, negsuc, within, weekday_text, weekdays, same_day,
  day_set, days_of_items, days_of_keys, parse_days, Digits, int_of_pair, in_range, parse_hhmm,
  clock_time, parse_time, known_zone, parse_zone, window_from_dict, windows_from_items,
  parse_windows, is_kind, policy_from_dict,
}

pub parsed-injective {ℓ} : {A : Type ℓ} (a b : A) → parsed a ≡ parsed b → a ≡ b
parsed-injective a b e = cc

-- What a chain that succeeds has passed through.
pub then_parsed {ℓ κ} :
    {A : Type ℓ} {B : Type κ} (m : Parsed A) (f : A → Parsed B) (b : B)
    → (m >>= f) ≡ parsed b
    → (a : A) × (m ≡ parsed a) × (f a ≡ parsed b)
then_parsed (parsed a) f b h = (a, refl, h)
then_parsed invalid f b h = cc
then_parsed crash f b h = cc

-- A time of day in whole minutes.
abbrev pub IsClockTime : ℕ → Type 0
IsClockTime t = (t < day) × (t % minute ≡ 0)

pub record IsPlain (z : Zones) (w : Window) : Type 0 where
  pub starts : IsClockTime w.start
  pub ends : IsClockTime w.end
  pub zoned : z.zone w.timezone ≡ found
  pub named : str_eq w.timezone "" ≡ false
  pub some_day : any w.days weekdays ≡ true

-- A policy that a payload can describe.
abbrev pub IsWritable : Zones → DispatchPolicy → Type 0
IsWritable z immediate = Unit
IsWritable z manual = Unit
IsWritable z (work_window windows) = (windows ≢ []) × All (λ w. IsPlain z w) windows

same_day_self : (d : Weekday) → same_day d d ≡ true
unfolding weekday_text
same_day_self d = str_eq_refl (weekday_text d)

-- The listed weekday is found again.
any-weekdays : (days : Days) (d : Weekday) → days d ≡ true → any days weekdays ≡ true
any-weekdays days mon e = ground arith
any-weekdays days tue e = ground arith
any-weekdays days wed e = ground arith
any-weekdays days thu e = ground arith
any-weekdays days fri e = ground arith
any-weekdays days sat e = ground arith
any-weekdays days sun e = ground arith

day_set-some_day :
    (ds : List Weekday) (days : Days) → day_set ds ≡ parsed days → any days weekdays ≡ true
unfolding day_set
day_set-some_day [] days e = cc
day_set-some_day (d ∷ ds) days e =
    subst (λ (s : Days). any s weekdays ≡ true) (parsed-injective _ days e)
      (any-weekdays (λ x. any (λ y. same_day y x) (d ∷ ds)) d (ground (arith, same_day_self d)))

parse_days-some_day :
    (raw : Option Json) (days : Days) → parse_days raw ≡ parsed days → any days weekdays ≡ true
unfolding parse_days
parse_days-some_day none days e =
    subst (λ (s : Days). any s weekdays ≡ true) (parsed-injective all_days days e) refl
parse_days-some_day (some null) days e =
    subst (λ (s : Days). any s weekdays ≡ true) (parsed-injective all_days days e) refl
parse_days-some_day (some (arr js)) days e =
    let (ds, _, q) = then_parsed (days_of_items js) day_set days e in day_set-some_day ds days q
parse_days-some_day (some (obj fs)) days e =
    let (ds, _, q) = then_parsed (days_of_keys fs) day_set days e in day_set-some_day ds days q
parse_days-some_day (some (text s)) days e = cc
parse_days-some_day (some (flag b)) days e = cc
parse_days-some_day (some (num n)) days e = cc

within-le : (most n : ℕ) (i : ℤ) → within most i ≡ parsed n → n ≤ most
unfolding within
within-le most n (pos m) e = ground (arith, leb→le m most)
within-le most n (negsuc m) e = cc

module _ (u : Digits) (z : Zones) where
  in_range-le : (most n : ℕ) (i : Option ℤ) → in_range u z most i ≡ parsed n → n ≤ most
  in_range-le most n none e = cc
  in_range-le most n (some i) e = within-le most n i e

  clock_time-IsClockTime :
      (codes : Option (ℕ × ℕ × ℕ × ℕ)) (t : ℕ) → clock_time u z codes ≡ parsed t → IsClockTime t
  clock_time-IsClockTime none t e = cc
  clock_time-IsClockTime (some (a, b, c, d)) t e =
      let (hh, p, e') = then_parsed (in_range u z 23 (int_of_pair u z a b)) _ t e in
      let (mm, q, e'') = then_parsed (in_range u z 59 (int_of_pair u z c d)) _ t e' in
      let sum = parsed-injective _ t e'' in
      (
        omega (arith, in_range-le 23 hh _ p, in_range-le 59 mm _ q),
        omega (arith, in_range-le 23 hh _ p, in_range-le 59 mm _ q),
      )

  parse_time-IsClockTime :
      (raw : Option Json) (t : ℕ) → parse_time u z raw ≡ parsed t → IsClockTime t
  unfolding parse_hhmm
  parse_time-IsClockTime none t e = cc
  parse_time-IsClockTime (some null) t e = cc
  parse_time-IsClockTime (some (flag b)) t e = cc
  parse_time-IsClockTime (some (num n)) t e = cc
  parse_time-IsClockTime (some (arr js)) t e = cc
  parse_time-IsClockTime (some (obj fs)) t e = cc
  parse_time-IsClockTime (some (text s)) t e = clock_time-IsClockTime _ t e

  known_zone-found :
      (key tz : String)
      → (if str_eq key "" then invalid else known_zone u z (z.zone key) key) ≡ parsed tz
      → (z.zone tz ≡ found) × (str_eq tz "" ≡ false)
  known_zone-found key tz e = go (str_eq key "") refl (z.zone key) refl e
    where
      go :
          (b : Bool)
          → str_eq key "" ≡ b
          → (l : ZoneLookup) → z.zone key ≡ l
          → (if b then invalid else known_zone u z l key) ≡ parsed tz
          → (z.zone tz ≡ found) × (str_eq tz "" ≡ false)
      go true p l q e = cc
      go false p not_found q e = cc
      go false p malformed q e = cc
      go false p found q e =
          let same = parsed-injective key tz e in
          (
            subst (λ (k : String). z.zone k ≡ found) same q,
            subst (λ (k : String). str_eq k "" ≡ false) same p,
          )

  parse_zone-found :
      (raw : Option Json) (tz : String)
      → parse_zone u z raw ≡ parsed tz
      → (z.zone tz ≡ found) × (str_eq tz "" ≡ false)
  unfolding parse_zone
  parse_zone-found none tz e = cc
  parse_zone-found (some null) tz e = cc
  parse_zone-found (some (flag true)) tz e = cc
  parse_zone-found (some (flag false)) tz e = cc
  parse_zone-found (some (num n)) tz e = absurd (ground arith)
  parse_zone-found (some (text s)) tz e = known_zone-found s tz e
  parse_zone-found (some (arr nil)) tz e = cc
  parse_zone-found (some (arr (cons j js))) tz e = cc
  parse_zone-found (some (obj end)) tz e = cc
  parse_zone-found (some (obj (field k j fs))) tz e = cc

  window_from_dict-IsPlain :
      (j : Json) (w : Window) → window_from_dict u z j ≡ parsed w → IsPlain z w
  unfolding window_from_dict
  window_from_dict-IsPlain null w e = cc
  window_from_dict-IsPlain (flag b) w e = cc
  window_from_dict-IsPlain (num n) w e = cc
  window_from_dict-IsPlain (text s) w e = cc
  window_from_dict-IsPlain (arr js) w e = cc
  window_from_dict-IsPlain (obj fs) w e =
      let (start, p, e1) = then_parsed (parse_time u z (get "start" fs)) _ w e in
      let (end', q, e2) = then_parsed (parse_time u z (get "end" fs)) _ w e1 in
      let (tz, r, e3) = then_parsed (parse_zone u z (get "timezone" fs)) _ w e2 in
      let (days, s, e4) = then_parsed (parse_days (get "days" fs)) _ w e3 in
      subst (λ (x : Window). IsPlain z x) (parsed-injective _ w e4)
        (record {
          starts = parse_time-IsClockTime (get "start" fs) start p;
          ends = parse_time-IsClockTime (get "end" fs) end' q;
          zoned = (parse_zone-found (get "timezone" fs) tz r).0;
          named = (parse_zone-found (get "timezone" fs) tz r).1;
          some_day = parse_days-some_day (get "days" fs) days s;
        })

  windows_from_items-IsPlain :
      (js : Items) (ws : List Window)
      → windows_from_items u z js ≡ parsed ws
      → All (λ w. IsPlain z w) ws
  windows_from_items-IsPlain nil ws e =
      subst (λ (x : List Window). All (λ w. IsPlain z w) x) (parsed-injective [] ws e) tt
  windows_from_items-IsPlain (cons j js) ws e =
      let (w, p, e1) = then_parsed (window_from_dict u z j) _ ws e in
      let (rest, q, e2) = then_parsed (windows_from_items u z js) _ ws e1 in
      subst (λ (x : List Window). All (λ w. IsPlain z w) x) (parsed-injective (w ∷ rest) ws e2)
        (window_from_dict-IsPlain j w p, windows_from_items-IsPlain js rest q)

  some_window :
      (j : Json) (js : Items) (ws : List Window)
      → windows_from_items u z (cons j js) ≡ parsed ws
      → ws ≢ []
  some_window j js [] e =
      let (w, p, e1) = then_parsed (window_from_dict u z j) _ [] e in
      let (rest, q, e2) = then_parsed (windows_from_items u z js) _ [] e1 in
      absurd (ground (arith, parsed-injective (w ∷ rest) [] e2))
  some_window j js (w ∷ ws) e = λ p. cc

  parse_windows-IsWritable :
      (raw : Option Json) (p : DispatchPolicy) → parse_windows u z raw ≡ parsed p → IsWritable z p
  unfolding parse_windows
  parse_windows-IsWritable none p e = cc
  parse_windows-IsWritable (some null) p e = cc
  parse_windows-IsWritable (some (flag true)) p e = cc
  parse_windows-IsWritable (some (flag false)) p e = cc
  parse_windows-IsWritable (some (num n)) p e = absurd (ground arith)
  parse_windows-IsWritable (some (text s)) p e = absurd (ground arith)
  parse_windows-IsWritable (some (arr nil)) p e = cc
  parse_windows-IsWritable (some (obj end)) p e = cc
  parse_windows-IsWritable (some (obj (field k j fs))) p e = cc
  parse_windows-IsWritable (some (arr (cons j js))) p e =
      let (ws, q, e1) = then_parsed (windows_from_items u z (cons j js)) _ p e in
      subst (λ (x : DispatchPolicy). IsWritable z x) (parsed-injective (work_window ws) p e1)
        (some_window j js ws q, windows_from_items-IsPlain (cons j js) ws q)

-- A policy that `policy_from_dict` accepts is immediate or manual, or it has at least one window; each
-- window begins and ends at a whole minute of the day, in a zone whose key is not empty and is
-- found, and it has at least one weekday.
pub policy_from_dict-IsWritable :
    (u : Digits) (z : Zones) (payload : Fields) (p : DispatchPolicy)
    → policy_from_dict u z payload ≡ parsed p
    → IsWritable z p
unfolding policy_from_dict
policy_from_dict-IsWritable u z payload p e =
    go (is_kind u z "immediate" kind) (is_kind u z "manual" kind) (is_kind u z "work_window" kind) e
  where
    kind : Option Json
    kind = get "kind" payload

    go :
        (a b c : Bool)
        → (if a
            then parsed immediate
            else if b
            then parsed manual
            else if c
            then parse_windows u z (get "windows" payload)
            else invalid)
          ≡ parsed p
        → IsWritable z p
    go true b c e =
        subst (λ (x : DispatchPolicy). IsWritable z x) (parsed-injective immediate p e) tt
    go false true c e =
        subst (λ (x : DispatchPolicy). IsWritable z x) (parsed-injective manual p e) tt
    go false false true e = parse_windows-IsWritable u z (get "windows" payload) p e
    go false false false e = cc
