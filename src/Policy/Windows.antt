-- ===== src/Policy/Windows.antt =====
-- `Window.contains` of core/orchestration/domain/dispatch_policy.py, on windows for every day and on
-- windows that wrap midnight.
use mad_edge.Prelude.{ℕ, zero, suc, ◌≤◌, ◌≡◌, true, arith}
use mad_edge.Policy.{Days, Zones, Window, in_days, from_iso_index, wraps_midnight, contains}

in_days-all :
    (n : ℕ) (days : Days)
    → ((d : _) → days d ≡ true)
    → 1 ≤ n
    → n ≤ 7
    → in_days (from_iso_index n) days ≡ true
unfolding from_iso_index
in_days-all zero days h a b = absurd (omega arith)
in_days-all (suc zero) days h a b = h _
in_days-all (suc (suc zero)) days h a b = h _
in_days-all (suc (suc (suc zero))) days h a b = h _
in_days-all (suc (suc (suc (suc zero)))) days h a b = h _
in_days-all (suc (suc (suc (suc (suc zero))))) days h a b = h _
in_days-all (suc (suc (suc (suc (suc (suc zero)))))) days h a b = h _
in_days-all (suc (suc (suc (suc (suc (suc (suc zero))))))) days h a b = h _
in_days-all (suc (suc (suc (suc (suc (suc (suc (suc n)))))))) days h a b = absurd (omega arith)

-- The window from the end of `w` to its start.
abbrev pub complement : Window → Window
complement w = record w { start = w.end; end = w.start }

module _ (z : Zones) where
  every_day :
      (w : Window) (instant : ℕ)
      → ((d : _) → w.days d ≡ true)
      → in_days (from_iso_index (z.isoweekday w.timezone instant)) w.days ≡ true
  every_day w instant h =
      let r = z.isoweekday_range w.timezone instant in in_days-all _ w.days h r.0 r.1

  -- A window for every day whose start and end are equal is always open.
  contains-full_day :
      (w : Window) (instant : ℕ)
      → ((d : _) → w.days d ≡ true)
      → w.start ≡ w.end
      → contains z w instant ≡ true
  unfolding contains wraps_midnight
  contains-full_day w instant h e = ground (arith, every_day w instant h)
