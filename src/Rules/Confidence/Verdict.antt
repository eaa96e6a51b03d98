-- ===== src/Rules/Confidence/Verdict.antt =====
-- app/domain/rules/confidence.py: the thresholds in order.
use devflowfix.Base.{◌≤◌, ◌≡◌, ◌⊎◌, arith}
use devflowfix.Core.Enums.{Decimals, Environment, production, Severity, critical}
use devflowfix.Rules.Confidence.{Thresholds, get_threshold}

-- If the settings put production above staging and staging above the rest, no environment and
-- severity asks for more than a critical incident in production, which asks for 0.98 at least, and
-- production asks for more than any other environment at every severity.
get_threshold_order :
    (fl : Decimals) (c : Thresholds) (e : Environment) (s t : Severity)
    → c.min_confidence ≤ c.high_confidence
    → c.high_confidence ≤ c.production_confidence
    → (get_threshold fl c e s ≤ get_threshold fl c production critical)
      × (fl.dec 98 100 ≤ get_threshold fl c production critical)
      × (get_threshold fl c e s ≤ get_threshold fl c production t ⊎ (e ≡ production))
unfolding get_threshold
get_threshold_order fl c e s t h k = ground arith
