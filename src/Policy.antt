-- ===== src/Policy.antt =====
-- core/orchestration/domain/dispatch_policy.py and deployment_policy.py: when a session's queue may
-- be drained. An instant is a timezone-aware datetime, in microseconds; a time of day is in
-- microseconds from midnight; a `frozenset[Weekday]` is its membership test.

pub mod Opening
pub mod Windows
pub mod Serial
use mad_edge.Prelude.{
  ℕ, zero, suc, ◌+◌, ◌*◌, ◌%◌, ◌≤◌, ◌<◌, ◌≡◌, Bool, true, false, ◌&&◌, ◌||◌, not, Option, none,
  some, List, String, ltb, leb, any, if◌then◌else◌,
}

pub data Weekday : Type 0 where
  mon tue wed thu fri sat sun : Weekday

Weekday-discrete : Discrete Weekday
Weekday-discrete = hlevel

-- `Weekday.from_iso_index`; `none` is the KeyError of an index that is not 1 to 7.
unfoldable pub from_iso_index : ℕ → Option Weekday
from_iso_index zero = none
from_iso_index (suc zero) = some mon
from_iso_index (suc (suc zero)) = some tue
from_iso_index (suc (suc (suc zero))) = some wed
from_iso_index (suc (suc (suc (suc zero)))) = some thu
from_iso_index (suc (suc (suc (suc (suc zero))))) = some fri
from_iso_index (suc (suc (suc (suc (suc (suc zero)))))) = some sat
from_iso_index (suc (suc (suc (suc (suc (suc (suc zero))))))) = some sun
from_iso_index (suc (suc (suc (suc (suc (suc (suc (suc n)))))))) = none

abbrev pub Days : Type 0
Days = Weekday → Bool

-- `_ALL_DAYS`
abbrev pub all_days : Days
all_days d = true

-- What the program asks of `zoneinfo`, by the IANA key of a zone: whether the key names a zone,
-- and the local weekday (`isoweekday()`) and time of day of an instant.
pub data ZoneLookup : Type 0 where
  found not_found malformed : ZoneLookup

pub record Zones : Type 0 where
  pub zone : String → ZoneLookup
  pub isoweekday : String → ℕ → ℕ
  pub local_time : String → ℕ → ℕ
  pub isoweekday_range : (tz : String) (t : ℕ) → (1 ≤ isoweekday tz t) × (isoweekday tz t ≤ 7)

pub record Window : Type 0 where
  pub start : ℕ
  pub end : ℕ
  pub timezone : String
  pub days : Days

unfoldable pub wraps_midnight : Window → Bool
wraps_midnight w = leb w.end w.start

-- Membership of a looked-up weekday. The KeyError case is never met: an ISO weekday is 1 to 7.
abbrev pub in_days : Option Weekday → Days → Bool
in_days none days = false
in_days (some d) days = days d

pub data DispatchPolicy : Type 0 where
  immediate : DispatchPolicy
  work_window : List Window → DispatchPolicy
  manual : DispatchPolicy

-- `timedelta(minutes=1)` and `timedelta(days=1)`
abbrev pub minute : ℕ
minute = 60_000_000

abbrev pub day : ℕ
day = 86_400_000_000

module _ (z : Zones) where
  -- `Window.contains`
  unfoldable pub contains : Window → ℕ → Bool
  unfolding wraps_midnight from_iso_index
  contains w instant =
      let weekday = from_iso_index (z.isoweekday w.timezone instant) in
      let tomorrow = from_iso_index (z.isoweekday w.timezone instant % 7 + 1) in
      let local_t = z.local_time w.timezone instant in
      if not (in_days weekday w.days) && not (wraps_midnight w && in_days tomorrow w.days)
      then false
      else if wraps_midnight w
      then leb w.start local_t || ltb local_t w.end
      else leb w.start local_t && ltb local_t w.end

  -- `WorkWindowPolicy.is_open`
  unfoldable pub is_open : List Window → ℕ → Bool
  is_open windows instant = any (λ w. contains w instant) windows

  unfoldable pub can_dispatch : DispatchPolicy → ℕ → ℕ → Bool
  can_dispatch immediate instant manual_drain_remaining = true
  can_dispatch manual instant manual_drain_remaining = ltb 0 manual_drain_remaining
  can_dispatch (work_window windows) instant manual_drain_remaining = is_open windows instant

  -- The loop `while cursor < end` of `next_window_opening`, on fuel.
  unfoldable pub scan_opening : ℕ → List Window → ℕ → ℕ → Option ℕ
  scan_opening zero windows cursor end = none
  scan_opening (suc fuel) windows cursor end =
      let rest = scan_opening fuel windows (cursor + minute) end in
      if ltb cursor end then (if is_open windows cursor then some cursor else rest) else none

  -- One round for each minute of the horizon, and one for the test that ends the loop.
  unfoldable pub next_window_opening : DispatchPolicy → ℕ → ℕ → Option ℕ
  next_window_opening immediate instant horizon_days = none
  next_window_opening manual instant horizon_days = none
  next_window_opening (work_window windows) instant horizon_days =
      scan_opening (1440 * horizon_days + 1) windows instant (instant + horizon_days * day)

-- `resolve_effective_policy`: the session's override, else the deployment default, else immediate.
-- A `DeploymentDispatchPolicy` holder that is None, and one whose default is None, are `none`.
unfoldable pub resolve_effective_policy :
    Option DispatchPolicy → Option DispatchPolicy → DispatchPolicy
resolve_effective_policy (some p) deployment = p
resolve_effective_policy none (some p) = p
resolve_effective_policy none none = immediate

-- `isinstance(policy, ImmediatePolicy)` and its likes.
abbrev pub is_immediate : DispatchPolicy → Bool
is_immediate immediate = true
is_immediate _ = false

abbrev pub is_manual : DispatchPolicy → Bool
is_manual manual = true
is_manual _ = false

abbrev pub is_work_window : DispatchPolicy → Bool
is_work_window (work_window _) = true
is_work_window _ = false
