-- ===== src/Core/Enums.antt =====
-- app/core/enums.py. A score is a finite float that is not negative, given by its place in their
-- order, so that comparing scores is comparing numbers; `dec n d` is the float that stands for n / d.
pub mod Approval
use devflowfix.Base.{ℕ, ◌≤◌, ◌<◌, Bool, true, false, ◌&&◌, ltb, if◌then◌else◌}

pub data IncidentSource : Type 0 where
  github argocd kubernetes gitlab jenkins manual : IncidentSource

pub data Severity : Type 0 where
  low medium high critical : Severity

pub data Outcome : Type 0 where
  success failed pending escalated rolled_back timeout cancelled : Outcome

pub data Fixability : Type 0 where
  auto manual unknown : Fixability

pub data FailureType : Type 0 where
  image_pull_backoff crash_loop_backoff oom_killed evicted pending_pod : FailureType
  build_failure test_failure lint_failure dependency_error timeout_error : FailureType
  sync_failed health_check_failed rollout_stuck : FailureType
  auth_expired permission_denied : FailureType
  resource_exhausted disk_full rate_limit : FailureType
  config_error invalid_yaml missing_secret : FailureType
  connection_refused dns_resolution timeout : FailureType
  unknown transient : FailureType

pub data ActionType : Type 0 where
  github_rerun_workflow github_cancel_workflow github_rotate_secret : ActionType
  github_update_dependency : ActionType
  k8s_restart_pod k8s_scale_deployment k8s_update_image k8s_rollback_deployment : ActionType
  k8s_delete_evicted_pods k8s_update_resource_limits k8s_update_secret : ActionType
  argocd_sync argocd_hard_refresh argocd_rollback : ActionType
  docker_clear_cache docker_rebuild : ActionType
  noop wait_and_retry notify_only : ActionType

pub data Environment : Type 0 where
  development staging production test : Environment

pub data ApprovalStatus : Type 0 where
  pending approved rejected timeout not_required : ApprovalStatus

pub data RiskLevel : Type 0 where
  low medium high critical : RiskLevel

pub data StrategyType : Type 0 where
  conservative slack_first vector_db hybrid aggressive : StrategyType

pub data ConfidenceLevel : Type 0 where
  very_low low medium high very_high : ConfidenceLevel

-- The float nearest to n / d. Rounding keeps the order, and keeps the decimals that the code writes
-- apart, as they differ by a hundredth at least.
pub record Decimals : Type 0 where
  pub dec : ℕ → ℕ → ℕ
  pub dec_mono : (n m : ℕ) → n ≤ m → dec n 100 ≤ dec m 100
  pub dec_strict : (n m : ℕ) → n < m → m ≤ 100 → dec n 100 < dec m 100

unfoldable pub FailureType-discrete : Discrete FailureType
FailureType-discrete = hlevel

unfoldable pub ActionType-discrete : Discrete ActionType
ActionType-discrete = hlevel

abbrev pub is_production : Environment → Bool
is_production production = true
is_production _ = false

abbrev pub is_critical : Severity → Bool
is_critical critical = true
is_critical _ = false

-- severity in [Severity.CRITICAL, Severity.HIGH]
unfoldable pub is_critical_severity : Severity → Bool
is_critical_severity critical = true
is_critical_severity high = true
is_critical_severity _ = false

abbrev pub is_dev_or_test : Environment → Bool
is_dev_or_test development = true
is_dev_or_test test = true
is_dev_or_test _ = false

abbrev pub is_staging : Environment → Bool
is_staging staging = true
is_staging _ = false

module _ (fl : Decimals) where
  open fl use {dec}

  -- ConfidenceLevel.from_score
  unfoldable pub from_score : ℕ → ConfidenceLevel
  from_score score =
      if ltb score (dec 50 100)
      then very_low
      else if ltb score (dec 70 100)
      then low
      else if ltb score (dec 85 100)
      then medium
      else if ltb score (dec 95 100)
      then high
      else very_high

  unfoldable pub requires_approval : ℕ → Severity → Environment → Bool
  requires_approval confidence severity environment =
      if is_production environment && is_critical severity
      then true
      else if is_production environment && ltb confidence (dec 95 100)
      then true
      else if is_dev_or_test environment
      then false
      else if is_staging environment && ltb confidence (dec 85 100)
      then true
      else false

  unfoldable pub get_confidence_threshold : Environment → ℕ
  get_confidence_threshold development = dec 70 100
  get_confidence_threshold test = dec 70 100
  get_confidence_threshold staging = dec 85 100
  get_confidence_threshold production = dec 95 100

unfoldable pub map_failure_to_action : FailureType → ActionType
map_failure_to_action image_pull_backoff = k8s_restart_pod
map_failure_to_action crash_loop_backoff = k8s_restart_pod
map_failure_to_action oom_killed = k8s_update_resource_limits
map_failure_to_action sync_failed = argocd_sync
map_failure_to_action build_failure = github_rerun_workflow
map_failure_to_action test_failure = github_rerun_workflow
map_failure_to_action auth_expired = github_rotate_secret
map_failure_to_action transient = wait_and_retry
map_failure_to_action _ = notify_only
