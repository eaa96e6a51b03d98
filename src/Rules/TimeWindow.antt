-- ===== src/Rules/TimeWindow.antt =====
-- app/domain/rules/time_window.py and app/domain/rules/environment.py. A time of day is a number of
-- microseconds since midnight, and a weekday a number from 0, Monday.
pub mod Verdict
use devflowfix.Base.{ℕ, ◌*◌, Bool, true, false, not, ◌&&◌, ltb, leb, if◌then◌else◌}

abbrev pub minutes : ℕ → ℕ
minutes n = n * 60000000

abbrev pub hours : ℕ → ℕ
hours n = minutes (n * 60)

pub record TimeWindow : Type 0 where
  pub allowed_start : ℕ
  pub allowed_end : ℕ
  pub block_weekends : Bool
  pub block_business_hours : Bool

-- `TimeWindowRule()`: from 00:00 to 23:59
unfoldable pub default_window : TimeWindow
default_window = record {
  allowed_start = 0;
  allowed_end = minutes 1439;
  block_weekends = false;
  block_business_hours = false;
}

unfoldable pub evaluate_time_window : TimeWindow → ℕ → ℕ → Bool
evaluate_time_window w time weekday =
    if not (leb w.allowed_start time && leb time w.allowed_end)
    then false
    else if w.block_weekends && leb 5 weekday
    then false
    else if w.block_business_hours
    then (if leb (hours 9) time && leb time (hours 17)
        then (if ltb weekday 5 then false else true)
        else true)
    else true

unfoldable pub evaluate_environment : Bool
evaluate_environment = true
