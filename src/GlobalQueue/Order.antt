-- ===== src/GlobalQueue/Order.antt =====
-- The sort key of `_scheduled` in core/orchestration/use_cases/get_global_queue.py is an order.
use mad_edge.Prelude.{ℕ, ◌≡◌, refl, Bool, true, false, Option, none, some, arith}
use mad_edge.Prelude.Sorting.{IsWeakOrder}
use mad_edge.Prelude.TextOrder.{str_ltb_asym, str_ltb-IsWeakOrder}
use mad_edge.GlobalQueue.{ScheduledEntry, entry_ltb, time_ltb, tied_ltb}

tied_ltb_asym : (e f : ScheduledEntry) → tied_ltb e f ≡ true → tied_ltb f e ≡ false
tied_ltb_asym e f h = ground (arith, str_ltb_asym e.task.session_id f.task.session_id)

tied_not_less_trans :
    (e f g : ScheduledEntry) → tied_ltb f e ≡ false → tied_ltb g f ≡ false → tied_ltb g e ≡ false
tied_not_less_trans e f g h k = ground (
  arith,
  str_ltb-IsWeakOrder.not_less_trans e.task.session_id f.task.session_id g.task.session_id,
)

time_ltb_asym :
    (t u : Option ℕ) (a b : Bool)
    → (a ≡ true → b ≡ false)
    → time_ltb t u a ≡ true
    → time_ltb u t b ≡ false
time_ltb_asym none none a b k h = k h
time_ltb_asym none (some u) a b k h = cc
time_ltb_asym (some t) none a b k h = refl
time_ltb_asym (some t) (some u) a b k h = ground arith

time_not_less_trans :
    (t u v : Option ℕ) (a b c : Bool)
    → (a ≡ false → b ≡ false → c ≡ false)
    → time_ltb u t a ≡ false
    → time_ltb v u b ≡ false
    → time_ltb v t c ≡ false
time_not_less_trans none none none a b c k h l = k h l
time_not_less_trans none none (some v) a b c k h l = cc
time_not_less_trans none (some u) v a b c k h l = cc
time_not_less_trans (some t) u none a b c k h l = refl
time_not_less_trans (some t) none (some v) a b c k h l = cc
time_not_less_trans (some t) (some u) (some v) a b c k h l = ground arith

pub entry_ltb-IsWeakOrder : IsWeakOrder entry_ltb
unfolding entry_ltb
entry_ltb-IsWeakOrder = record {
  asym = λ e f h. time_ltb_asym e.scheduled_for f.scheduled_for _ _ (tied_ltb_asym e f) h;
  not_less_trans = λ e f g h k.
      time_not_less_trans e.scheduled_for f.scheduled_for g.scheduled_for _ _ _
        (tied_not_less_trans e f g) h k;
}
