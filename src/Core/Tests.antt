-- ===== src/Core/Tests.antt =====
-- A concrete float order and concrete incidents for app/core.
use devflowfix.Base.{◌*◌, ◌/◌, false, none, some, [], ◌∷◌, arith}
use devflowfix.Core.Enums.{Decimals, IncidentSource, Severity, build_failure}
use devflowfix.Core.Incident.{Incident}

-- Decimals in ten-thousandths.
abbrev pub ten_thousandths : Decimals
ten_thousandths = record {
  dec = λ n d. n * 10000 / d;
  dec_mono = λ n m h. omega arith;
  dec_strict = λ n m h k. omega arith;
}

abbrev pub build_broken : Incident
build_broken = record {
  timestamp = 1000000;
  updated_at = 1000000;
  resolved_at = none;
  source = IncidentSource.github;
  severity = Severity.high;
  failure_type = some build_failure;
  error_log = "make: *** [all] Error 2";
  error_message = none;
  context = ("service", "billing-api") ∷ ("environment", "PROD") ∷ [];
  fixability = none;
  confidence = some 8000;
  remediation_executed = false;
  remediation_start_time = none;
  remediation_end_time = none;
  outcome = none;
  outcome_message = none;
  resolution_time_seconds = none;
  approved_by = none;
  approved_timestamp = none;
  tags = [];
}
