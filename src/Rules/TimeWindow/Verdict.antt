-- ===== src/Rules/TimeWindow/Verdict.antt =====
-- app/domain/rules/time_window.py: when the window is open.
use devflowfix.Base.{ℕ, ◌+◌, ◌≤◌, ◌<◌, ◌≡◌, ◌↔◌, true, arith}
use devflowfix.Rules.TimeWindow.{TimeWindow, minutes, hours, default_window, evaluate_time_window}

pub record IsOpen (w : TimeWindow) (time weekday : ℕ) : Type 0 where
  pub started : w.allowed_start ≤ time
  pub not_over : time ≤ w.allowed_end
  pub on_weekday : w.block_weekends ≡ true → weekday < 5
  pub off_hours : w.block_business_hours ≡ true → weekday < 5 → hours 9 ≤ time → time ≤ hours 17 → ⊥

-- The time window rule passes exactly where the time of day lies in the window, both ends included,
-- the day is no weekend if weekends are blocked, and the time is not from 9 to 17 o'clock on a
-- weekday if business hours are blocked.
evaluate_time_window_iff :
    (w : TimeWindow) (time weekday : ℕ)
    → (evaluate_time_window w time weekday ≡ true) ↔ IsOpen w time weekday
unfolding evaluate_time_window
evaluate_time_window_iff w time weekday = (
  λ h. record {
    started = ground arith;
    not_over = ground arith;
    on_weekday = λ b. ground arith;
    off_hours = λ b d l u. ground arith;
  },
  λ o. ground arith,
)

-- The window of the decision service ends at 23:59:00 and not at midnight: the rule passes, on every
-- weekday, exactly up to that time, and so fails through the last minute of each day.
default_window_iff :
    (time weekday : ℕ)
    → (evaluate_time_window default_window time weekday ≡ true) ↔ (time ≤ hours 23 + minutes 59)
unfolding evaluate_time_window default_window
default_window_iff time weekday = (λ h. ground arith, λ h. ground arith)
