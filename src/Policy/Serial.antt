-- ===== src/Policy/Serial.antt =====
-- core/orchestration/domain/dispatch_policy.py: `policy_from_dict` and `policy_to_dict`, with what
-- they call. Python's `int` reads the decimal digits and the white space of Unicode, and `ZoneInfo`
-- the keys of the installed zones: both enter as parameters.
pub mod Accepted
pub mod Trip
use Prim.Native.Char.{Char, code}
use mad_edge.Prelude.{
  ℕ, zero, suc, ◌+◌, ◌-◌, ◌*◌, ◌/◌, ◌%◌, ◌<◌, ◌≡◌, Bool, true, false, Option, none, some, List, [],
  ◌∷◌, String, leb, any, keep, ◌==◌, str_eq, if◌then◌else◌,
}
use mad_edge.Json.{Json, null, flag, num, text, arr, obj, Items, nil, cons, Fields, end, field, get}
use mad_edge.Policy.{
  Weekday, mon, tue, wed, thu, fri, sat, sun, Days, all_days, Zones, ZoneLookup, found, not_found,
  malformed, Window, DispatchPolicy, immediate, work_window, manual, minute,
}

-- A value, the exception InvalidDispatchPolicy, or any other exception.
pub data Parsed {ℓ} (A : Type ℓ) : Type ℓ where
  parsed : A → Parsed A
  invalid : Parsed A
  crash : Parsed A

infixl 5 ◌>>=◌
abbrev pub ◌>>=◌ {ℓ κ} : {A : Type ℓ} {B : Type κ} → Parsed A → (A → Parsed B) → Parsed B
parsed a >>= f = f a
invalid >>= f = invalid
crash >>= f = crash

-- The decimal value of a code point, if it has one, and whether it is white space.
pub record Digits : Type 0 where
  pub decimal : ℕ → Option ℕ
  pub is_space : ℕ → Bool
  pub decimal_ascii : (n : ℕ) → n < 10 → decimal (48 + n) ≡ some n
  pub is_space_ascii : (n : ℕ) → n < 10 → is_space (48 + n) ≡ false

-- `negsuc n` is -(n + 1).
pub data ℤ : Type 0 where
  pos : ℕ → ℤ
  negsuc : ℕ → ℤ

unfoldable negate : ℕ → ℤ
negate zero = pos 0
negate (suc n) = negsuc n

-- `0 <= n <= most`
unfoldable pub within : ℕ → ℤ → Parsed ℕ
within most (pos n) = if leb n most then parsed n else invalid
within most (negsuc n) = invalid

-- `strftime("%H:%M")`
abbrev pub digit_char : ℕ → Char
digit_char zero = "0"
digit_char (suc zero) = "1"
digit_char (suc (suc zero)) = "2"
digit_char (suc (suc (suc zero))) = "3"
digit_char (suc (suc (suc (suc zero)))) = "4"
digit_char (suc (suc (suc (suc (suc zero))))) = "5"
digit_char (suc (suc (suc (suc (suc (suc zero)))))) = "6"
digit_char (suc (suc (suc (suc (suc (suc (suc zero))))))) = "7"
digit_char (suc (suc (suc (suc (suc (suc (suc (suc zero)))))))) = "8"
digit_char _ = "9"

abbrev pub hour : ℕ
hour = 60 * minute

unfoldable pub hhmm_text : ℕ → String
hhmm_text t =
    let hh = t / hour in
    let mm = t / minute % 60 in
    String.◌∷◌ (digit_char (hh / 10)) (
      String.◌∷◌ (digit_char (hh % 10)) (
        String.◌∷◌ ":"
          (String.◌∷◌ (digit_char (mm / 10)) (String.◌∷◌ (digit_char (mm % 10)) String.[]))))

-- The value of a `Weekday`.
unfoldable pub weekday_text : Weekday → String
weekday_text mon = "mon"
weekday_text tue = "tue"
weekday_text wed = "wed"
weekday_text thu = "thu"
weekday_text fri = "fri"
weekday_text sat = "sat"
weekday_text sun = "sun"

abbrev find_day : String → List Weekday → Option Weekday
find_day s [] = none
find_day s (d ∷ ds) = if str_eq (weekday_text d) s then some d else find_day s ds

-- The members of `Weekday`, in the order of their values.
abbrev pub weekdays : List Weekday
weekdays = fri ∷ mon ∷ sat ∷ sun ∷ thu ∷ tue ∷ wed ∷ []

-- `Weekday(d)`; `none` is its ValueError.
unfoldable pub weekday_of : String → Option Weekday
unfolding weekday_text
weekday_of s = find_day s weekdays

abbrev pub day_items : List Weekday → Items
day_items [] = nil
day_items (d ∷ ds) = cons (text (weekday_text d)) (day_items ds)

abbrev pub window_fields : Window → Fields
window_fields w = field "start" (text (hhmm_text w.start)) (
    field "end" (text (hhmm_text w.end)) (
      field "timezone" (text w.timezone)
        (field "days" (arr (day_items (keep w.days weekdays))) end)))

abbrev pub window_items : List Window → Items
window_items [] = nil
window_items (w ∷ ws) = cons (obj (window_fields w)) (window_items ws)

unfoldable pub policy_to_dict : DispatchPolicy → Fields
unfolding hhmm_text weekday_text
policy_to_dict immediate = field "kind" (text "immediate") end
policy_to_dict manual = field "kind" (text "manual") end
policy_to_dict (work_window windows) =
    field "kind" (text "work_window") (field "windows" (arr (window_items windows)) end)

-- The days of a list, as a set; an empty one is refused.
abbrev pub same_day : Weekday → Weekday → Bool
same_day d e = str_eq (weekday_text d) (weekday_text e)

unfoldable pub day_set : List Weekday → Parsed Days
unfolding weekday_text
day_set [] = invalid
day_set (d ∷ ds) = parsed (λ e. any (λ x. same_day x e) (d ∷ ds))

abbrev add_day : Option Weekday → Parsed (List Weekday) → Parsed (List Weekday)
add_day none days = invalid
add_day (some d) days = days >>= λ ds. parsed (d ∷ ds)

abbrev pub days_of_items : Items → Parsed (List Weekday)
days_of_items nil = parsed []
days_of_items (cons (text s) js) = add_day (weekday_of s) (days_of_items js)
days_of_items (cons _ js) = invalid

abbrev pub days_of_keys : Fields → Parsed (List Weekday)
days_of_keys end = parsed []
days_of_keys (field k j fs) = add_day (weekday_of k) (days_of_keys fs)

-- `days_raw`: a list, a dict by its keys, or a text by its characters, none of which is a weekday.
unfoldable pub parse_days : Option Json → Parsed Days
unfolding day_set weekday_of
parse_days none = parsed all_days
parse_days (some null) = parsed all_days
parse_days (some (arr js)) = days_of_items js >>= day_set
parse_days (some (obj fs)) = days_of_keys fs >>= day_set
parse_days (some (text s)) = invalid
parse_days (some _) = crash

-- The code points of an `HH:MM`, but its colon; `none` is any other form.
unfoldable pub hhmm_codes : String → Option (ℕ × ℕ × ℕ × ℕ)
hhmm_codes (String.◌∷◌ a (String.◌∷◌ b (String.◌∷◌ c (String.◌∷◌ d (String.◌∷◌ e String.[]))))) =
    if code c == b':' then some (code a, code b, code d, code e) else none
hhmm_codes _ = none

module _ (u : Digits) (z : Zones) where
  -- `int` on one and on two characters; `none` is its ValueError.
  unfoldable pub int_of_pair : ℕ → ℕ → Option ℤ
  unfolding negate
  int_of_pair a b =
      let last = u.decimal b in
      if u.is_space a
      then elim last [ none ↦ none | some n ↦ some (pos n) ]
      else if u.is_space b
      then elim (u.decimal a) [ none ↦ none | some n ↦ some (pos n) ]
      else if a == b'+'
      then elim last [ none ↦ none | some n ↦ some (pos n) ]
      else if a == b'-'
      then elim last [ none ↦ none | some n ↦ some (negate n) ]
      else elim (u.decimal a) [
        | none ↦ none
        | some m ↦ elim last [ none ↦ none | some n ↦ some (pos (10 * m + n)) ]
      ]

  abbrev pub in_range : ℕ → Option ℤ → Parsed ℕ
  in_range most none = invalid
  in_range most (some n) = within most n

  -- A time of day in microseconds.
  abbrev pub clock_time : Option (ℕ × ℕ × ℕ × ℕ) → Parsed ℕ
  clock_time none = invalid
  clock_time (some (a, b, d, e)) = do
    hh ← in_range 23 (int_of_pair a b)
    mm ← in_range 59 (int_of_pair d e)
    parsed (hh * hour + mm * minute)

  unfoldable pub parse_hhmm : String → Parsed ℕ
  unfolding hhmm_codes int_of_pair within
  parse_hhmm value = clock_time (hhmm_codes value)

  -- `_parse_hhmm(payload[key])`; a missing key is refused as well.
  abbrev pub parse_time : Option Json → Parsed ℕ
  parse_time (some (text s)) = parse_hhmm s
  parse_time _ = invalid

  abbrev pub known_zone : ZoneLookup → String → Parsed String
  known_zone found key = parsed key
  known_zone not_found key = invalid
  known_zone malformed key = crash

  -- `payload.get("timezone")`: a falsy value is refused as a missing field.
  unfoldable pub parse_zone : Option Json → Parsed String
  parse_zone none = invalid
  parse_zone (some null) = invalid
  parse_zone (some (flag b)) = if b then crash else invalid
  parse_zone (some (num n)) = if n == 0 then invalid else crash
  parse_zone (some (text s)) = if str_eq s "" then invalid else known_zone (z.zone s) s
  parse_zone (some (arr nil)) = invalid
  parse_zone (some (arr (cons j js))) = crash
  parse_zone (some (obj end)) = invalid
  parse_zone (some (obj (field k j fs))) = crash

  unfoldable pub window_from_dict : Json → Parsed Window
  unfolding get parse_hhmm parse_zone parse_days
  window_from_dict (obj payload) = do
    start ← parse_time (get "start" payload)
    end' ← parse_time (get "end" payload)
    tz ← parse_zone (get "timezone" payload)
    days ← parse_days (get "days" payload)
    parsed (record { start = start; end = end'; timezone = tz; days = days })
  window_from_dict _ = crash

  abbrev pub windows_from_items : Items → Parsed (List Window)
  windows_from_items nil = parsed []
  windows_from_items (cons j js) = do
    w ← window_from_dict j
    ws ← windows_from_items js
    parsed (w ∷ ws)

  -- `payload.get("windows") or []`: a falsy value is refused as an empty list is; any other value
  -- that is no list has elements, if it has any, that are no dicts.
  unfoldable pub parse_windows : Option Json → Parsed DispatchPolicy
  unfolding window_from_dict
  parse_windows none = invalid
  parse_windows (some null) = invalid
  parse_windows (some (flag b)) = if b then crash else invalid
  parse_windows (some (num n)) = if n == 0 then invalid else crash
  parse_windows (some (text s)) = if str_eq s "" then invalid else crash
  parse_windows (some (arr nil)) = invalid
  parse_windows (some (arr (cons j js))) =
      windows_from_items (cons j js) >>= λ ws. parsed (work_window ws)
  parse_windows (some (obj end)) = invalid
  parse_windows (some (obj (field k j fs))) = crash

  abbrev pub is_kind : String → Option Json → Bool
  is_kind k (some (text s)) = str_eq s k
  is_kind k _ = false

  unfoldable pub policy_from_dict : Fields → Parsed DispatchPolicy
  unfolding get parse_windows
  policy_from_dict payload =
      let kind = get "kind" payload in
      if is_kind "immediate" kind
      then parsed immediate
      else if is_kind "manual" kind
      then parsed manual
      else if is_kind "work_window" kind
      then parse_windows (get "windows" payload)
      else invalid
