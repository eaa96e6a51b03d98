-- ===== src/Remediator/Tests.antt =====
-- Concrete fixes for app/services/remediator.py.
use devflowfix.Base.{◌≡◌, ◌↔◌, ◌≢◌, true, false, some, [], arith}
use devflowfix.Validation.{ValidationResult}
use devflowfix.Core.Enums.{Outcome, github_rerun_workflow}
use devflowfix.Core.Plan.{RemediationResult}
use devflowfix.Core.Tests.{build_broken}
use devflowfix.Limits.{no_fixes}
use devflowfix.Limits.Verdict.{HasUniqueKeys, InOrder}
use devflowfix.Rules.Tests.{small, defaults}
use devflowfix.PreRemediation.{validator_blacklist}
use devflowfix.PreRemediation.Tests.{rerun}
use devflowfix.PostRemediation.Tests.{fixed, green}
use devflowfix.Remediator.{
  Service, Flags, Clock, Remediator, completed, crashed, execute_remediation,
}
use devflowfix.Remediator.Success.{succeeded, started, Succeeds, execute_remediation_iff}
use devflowfix.Remediator.Slots.{Request}

abbrev pub service : Service
service = record {
  thresholds = defaults;
  blacklist = validator_blacklist;
  limits = small;
  remediation_timeout_seconds = 300;
}

abbrev plain : Flags
plain = record {
  skip_pre_validation = false;
  skip_post_validation = false;
  skip_blast_radius_check = false;
  db = false;
}

abbrev pub clock : Clock
clock = record {
  readings = record { cleanup = 10; hourly = 11; daily = 12; cooling = 13; health = 14 };
  started = 15;
  ended = 16;
}

abbrev pub good : Remediator
good = record { get_action_type = github_rerun_workflow; run = λ i p. completed green }

abbrev bad : Remediator
bad = record { get_action_type = github_rerun_workflow; run = λ i p. crashed }

abbrev asks : RemediationResult
asks = record green { success = false; outcome = Outcome.failed; rollback_required = true }

abbrev unconfirmed : ValidationResult
unconfirmed = record { passed = false; checks = []; warned = false }

no_fixes-HasUniqueKeys : HasUniqueKeys no_fixes
unfolding no_fixes
no_fixes-HasUniqueKeys = record { hourly_unique = tt; failures_unique = tt }

clock-InOrder : InOrder clock.readings
clock-InOrder = omega arith

execute_remediation_iff_example :
    (succeeded (execute_remediation service plain clock fixed rerun good no_fixes).1 ≡ true)
    ↔ Succeeds service plain clock fixed rerun good no_fixes
execute_remediation_iff_example =
    execute_remediation_iff service plain clock fixed rerun good no_fixes no_fixes-HasUniqueKeys
      clock-InOrder

pub build_broken_open : build_broken.outcome ≢ some Outcome.success
build_broken_open e = cc

abbrev crashing : Request
crashing = record {
  flags = plain;
  clock = clock;
  incident = build_broken;
  plan = rerun;
  remediator = bad;
}
