-- ===== src/Policy/Opening.antt =====
-- `next_window_opening` of core/orchestration/domain/dispatch_policy.py.
use mad_edge.Prelude.{
  ℕ, zero, suc, ◌+◌, ◌*◌, ◌<◌, ◌≡◌, true, false, none, some, List, inl, inr, ltb, lt→ltb,
  Bool-cases, arith, ◌≢◌,
}
use mad_edge.Policy.{
  Zones, Window, work_window, is_open, scan_opening, next_window_opening, minute, day,
}

module _ (z : Zones) where
  -- What a result of the loop says: it lies a whole number of minutes ahead, before the end, the
  -- windows are open there, and they are shut at every earlier minute.
  pub record IsFirstOpening (windows : List Window) (cursor end t : ℕ) : Type 0 where
    pub rounds : ℕ
    pub at : t ≡ cursor + rounds * minute
    before_end : t < end
    opens : is_open z windows t ≡ true
    shut_before : (j : ℕ) → j < rounds → is_open z windows (cursor + j * minute) ≡ false

  shut_before-suc :
      (windows : List Window) (cursor rounds : ℕ)
      → is_open z windows cursor ≡ false
      → ((j : ℕ) → j < rounds → is_open z windows (cursor + minute + j * minute) ≡ false)
      → (j : ℕ) → j < suc rounds
      → is_open z windows (cursor + j * minute) ≡ false
  shut_before-suc windows cursor rounds shut ih zero h =
      let e : cursor + 0 * minute ≡ cursor = omega arith in rw e shut
  shut_before-suc windows cursor rounds shut ih (suc j) h =
      let e : cursor + suc j * minute ≡ cursor + minute + j * minute = omega arith in
      rw e (ih j (omega arith))

  scan_opening-first :
      (fuel : ℕ) (windows : List Window) (cursor end t : ℕ)
      → scan_opening z fuel windows cursor end ≡ some t
      → IsFirstOpening windows cursor end t
  unfolding scan_opening
  scan_opening-first zero windows cursor end t e = cc
  scan_opening-first (suc fuel) windows cursor end t e = elim (Bool-cases (ltb cursor end)) [
    | inr late ↦ absurd (shut_case late)
    | inl early ↦ elim (Bool-cases (is_open z windows cursor)) [
      | inl now ↦ here early now
      | inr shut ↦
          later early shut
            (scan_opening-first fuel windows (cursor + minute) end t (rest_case early shut))
    ]
  ]
    where
      shut_case : ltb cursor end ≡ false → ⊥
      shut_case late = ground arith

      here :
          ltb cursor end ≡ true
          → is_open z windows cursor ≡ true
          → IsFirstOpening windows cursor end t
      here early now =
          let at_cursor : t ≡ cursor = ground arith in
          record {
            rounds = 0;
            at = omega arith;
            before_end = ground arith;
            opens = rw at_cursor now;
            shut_before = λ j h. elim h [ ];
          }

      rest_case :
          ltb cursor end ≡ true
          → is_open z windows cursor ≡ false
          → scan_opening z fuel windows (cursor + minute) end ≡ some t
      rest_case early shut = ground arith

      later :
          ltb cursor end ≡ true
          → is_open z windows cursor ≡ false
          → IsFirstOpening windows (cursor + minute) end t
          → IsFirstOpening windows cursor end t
      later early shut r = record {
        rounds = suc r.rounds;
        at = omega (arith, r.at);
        before_end = r.before_end;
        opens = r.opens;
        shut_before = shut_before-suc windows cursor r.rounds shut r.shut_before;
      }

  -- With the rounds to reach it, an opening before the end is not missed.
  scan_opening-ne-none :
      (fuel : ℕ) (windows : List Window) (cursor end j : ℕ)
      → j < fuel
      → cursor + j * minute < end
      → is_open z windows (cursor + j * minute) ≡ true
      → scan_opening z fuel windows cursor end ≢ none
  unfolding scan_opening
  scan_opening-ne-none zero windows cursor end j h b o = elim h [ ]
  scan_opening-ne-none (suc fuel) windows cursor end zero h b o =
      let e : cursor + 0 * minute ≡ cursor = omega arith in
      let o' : is_open z windows cursor ≡ true = rw e at o in
      let b' : ltb cursor end ≡ true = lt→ltb cursor end (omega arith) in ground arith
  scan_opening-ne-none (suc fuel) windows cursor end (suc j) h b o =
      let e : cursor + suc j * minute ≡ cursor + minute + j * minute = omega arith in
      let b' : ltb cursor end ≡ true = lt→ltb cursor end (omega arith) in
      ground (
        arith,
        scan_opening-ne-none fuel windows (cursor + minute) end j (omega arith) (omega arith)
            (rw e at o),
      )

  -- For a work-window policy `next_window_opening` returns the first instant, a whole number of
  -- minutes after the given one and before the end of the horizon, at which the policy is open; and
  -- it returns None only if the policy is shut at every such instant of the horizon.
  pub next_window_opening-first :
      (windows : List Window) (instant horizon_days : ℕ)
      → ((t : ℕ)
          → next_window_opening z (work_window windows) instant horizon_days ≡ some t
          → IsFirstOpening windows instant (instant + horizon_days * day) t)
        × (next_window_opening z (work_window windows) instant horizon_days ≡ none
            → (j : ℕ) → j < 1440 * horizon_days
            → is_open z windows (instant + j * minute) ≡ false)
  unfolding next_window_opening
  next_window_opening-first windows instant horizon_days = (
    scan_opening-first (1440 * horizon_days + 1) windows instant (instant + horizon_days * day),
    λ e j h. elim (Bool-cases (is_open z windows (instant + j * minute))) [
      | inr shut ↦ shut
      | inl opens ↦ absurd (
          scan_opening-ne-none (1440 * horizon_days + 1) windows instant
            (instant + horizon_days * day) j (omega arith) (omega arith) opens e)
    ],
  )
