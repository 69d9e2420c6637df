-- ===== src/Policy/Serial/Trip.antt =====
-- `policy_to_dict` and `policy_from_dict` of core/orchestration/domain/dispatch_policy.py, one after
-- the other.
use Prim.Native.Char.{code}
use mathlib.Core.Path.{fun_ext}
use mad_edge.Prelude.{
  ℕ, zero, suc, ◌&&◌, ◌+◌, ◌*◌, ◌/◌, ◌%◌, ◌≤◌, ◌<◌, ◌≡◌, ◌≢◌, refl, Bool, true, false, some, List,
  [], ◌∷◌, any, keep, All, arith, ap, subst, sym, ◌∙◌,
}
use mad_edge.Json.{obj}
use mad_edge.Policy.{
  Weekday, mon, tue, wed, thu, fri, sat, sun, Days, Zones, Window, DispatchPolicy, immediate,
  work_window, manual, minute,
}
use mad_edge.Policy.Serial.{
  parsed, pos, within, hour, digit_char, hhmm_codes, hhmm_text, weekday_text, weekdays, weekday_of,
  day_items, window_fields, window_items, policy_to_dict, same_day, day_set, days_of_items, Digits,
  int_of_pair, parse_hhmm, parse_zone, window_from_dict, windows_from_items, policy_from_dict,
}
use mad_edge.Policy.Serial.Accepted.{IsClockTime, IsPlain, IsWritable}

code-digit_char : (n : ℕ) → n < 10 → code (digit_char n) ≡ 48 + n
code-digit_char zero h = refl
code-digit_char (suc zero) h = refl
code-digit_char (suc (suc zero)) h = refl
code-digit_char (suc (suc (suc zero))) h = refl
code-digit_char (suc (suc (suc (suc zero)))) h = refl
code-digit_char (suc (suc (suc (suc (suc zero))))) h = refl
code-digit_char (suc (suc (suc (suc (suc (suc zero)))))) h = refl
code-digit_char (suc (suc (suc (suc (suc (suc (suc zero))))))) h = refl
code-digit_char (suc (suc (suc (suc (suc (suc (suc (suc zero)))))))) h = refl
code-digit_char (suc (suc (suc (suc (suc (suc (suc (suc (suc n))))))))) h = omega arith

weekday_of-weekday_text : (d : Weekday) → weekday_of (weekday_text d) ≡ some d
unfolding weekday_of
weekday_of-weekday_text mon = refl
weekday_of-weekday_text tue = refl
weekday_of-weekday_text wed = refl
weekday_of-weekday_text thu = refl
weekday_of-weekday_text fri = refl
weekday_of-weekday_text sat = refl
weekday_of-weekday_text sun = refl

days_of_items-day_items : (ds : List Weekday) → days_of_items (day_items ds) ≡ parsed ds
days_of_items-day_items [] = refl
days_of_items-day_items (d ∷ ds) =
    rw (weekday_of-weekday_text d) (rw (days_of_items-day_items ds) refl)

any-keep :
    {A : Type 0} (p q : A → Bool) (xs : List A) → any p (keep q xs) ≡ any (λ x. q x && p x) xs
any-keep p q [] = refl
any-keep p q (x ∷ xs) = ground (arith, any-keep p q xs)

-- The weekdays that are kept are those of the set.
any-kept : (days : Days) (e : Weekday) → any (λ x. days x && same_day x e) weekdays ≡ days e
unfolding weekday_text
any-kept days mon = ground arith
any-kept days tue = ground arith
any-kept days wed = ground arith
any-kept days thu = ground arith
any-kept days fri = ground arith
any-kept days sat = ground arith
any-kept days sun = ground arith

some_kept : {A : Type 0} (q : A → Bool) (xs : List A) → any q xs ≡ true → keep q xs ≢ []
some_kept q [] h = cc
some_kept q (x ∷ xs) h = λ e. absurd (ground (arith, some_kept q xs))

day_set-any : (ds : List Weekday) → ds ≢ [] → day_set ds ≡ parsed (λ e. any (λ x. same_day x e) ds)
unfolding day_set
day_set-any [] h = absurd (h refl)
day_set-any (d ∷ ds) h = refl

day_set-keep : (days : Days) → any days weekdays ≡ true → day_set (keep days weekdays) ≡ parsed days
day_set-keep days h =
    day_set-any (keep days weekdays) (some_kept days weekdays h)
    ∙ ap parsed (fun_ext (λ e. any-keep (λ x. same_day x e) days weekdays ∙ any-kept days e))

module _ (u : Digits) (z : Zones) where
  int_of_pair-decimal :
      (a b m n : ℕ)
      → u.is_space a ≡ false
      → u.is_space b ≡ false
      → u.decimal a ≡ some m
      → u.decimal b ≡ some n
      → 48 ≤ a
      → int_of_pair u z a b ≡ some (pos (10 * m + n))
  unfolding int_of_pair
  int_of_pair-decimal a b m n p q r s h = ground arith

  code-digit_char_lem :
      (n : ℕ)
      → n < 10
      → (u.is_space (code (digit_char n)) ≡ false)
        × (u.decimal (code (digit_char n)) ≡ some n)
        × (48 ≤ code (digit_char n))
  code-digit_char_lem n h =
      let e = sym (code-digit_char n h) in
      subst (λ (c : ℕ). (u.is_space c ≡ false) × (u.decimal c ≡ some n) × (48 ≤ c)) e
        (u.is_space_ascii n h, u.decimal_ascii n h, omega arith)

  int_of_pair-digit_char :
      (n : ℕ)
      → n < 100
      → int_of_pair u z (code (digit_char (n / 10))) (code (digit_char (n % 10))) ≡ some (pos n)
  int_of_pair-digit_char n h =
      let (p, r, le) = code-digit_char_lem (n / 10) (omega arith) in
      let (q, s, _) = code-digit_char_lem (n % 10) (omega arith) in
      int_of_pair-decimal _ _ (n / 10) (n % 10) p q r s le
      ∙ ap (λ (k : ℕ). some (pos k)) (omega arith)

  parse_hhmm-hhmm_text : (t : ℕ) → IsClockTime t → parse_hhmm u z (hhmm_text t) ≡ parsed t
  unfolding parse_hhmm hhmm_codes hhmm_text within
  parse_hhmm-hhmm_text t h =
      rw
        (
          int_of_pair-digit_char (t / hour) (omega arith),
          int_of_pair-digit_char (t / minute % 60) (omega arith),
        )
        (ground arith)

  window_from_dict-window_fields :
      (w : Window) → IsPlain z w → window_from_dict u z (obj (window_fields w)) ≡ parsed w
  unfolding window_from_dict parse_zone
  window_from_dict-window_fields w p =
      rw
        (
          parse_hhmm-hhmm_text w.start p.starts,
          parse_hhmm-hhmm_text w.end p.ends,
          p.named,
          p.zoned,
          days_of_items-day_items (keep w.days weekdays),
          day_set-keep w.days p.some_day,
        )
        refl

  windows_from_items-window_items :
      (ws : List Window)
      → All (λ w. IsPlain z w) ws
      → windows_from_items u z (window_items ws) ≡ parsed ws
  windows_from_items-window_items [] h = refl
  windows_from_items-window_items (w ∷ ws) h =
      rw (window_from_dict-window_fields w h.0) (rw (windows_from_items-window_items ws h.1) refl)

-- A policy of the form that `policy_from_dict` accepts is read back from its dict as it was: its
-- windows, their times, zones and weekdays in the same order.
pub policy_from_dict-policy_to_dict :
    (u : Digits) (z : Zones) (p : DispatchPolicy)
    → IsWritable z p
    → policy_from_dict u z (policy_to_dict p) ≡ parsed p
unfolding policy_from_dict policy_to_dict
policy_from_dict-policy_to_dict u z immediate h = refl
policy_from_dict-policy_to_dict u z manual h = refl
policy_from_dict-policy_to_dict u z (work_window []) h = absurd (h.0 refl)
policy_from_dict-policy_to_dict u z (work_window (w ∷ ws)) h =
    rw (windows_from_items-window_items u z (w ∷ ws) h.1) refl
