-- ===== src/Remediator/Factory.antt =====
-- app/domain/remediators/factory.py, with the two results of remediators/base.py and the remediator
-- of remediators/noop.py. The other remediators call clients of other systems and are arguments.
use devflowfix.Base.{◌≡◌, ◌⊎◌, Bool, true, false, Option, none, some, [], arith}
use devflowfix.Core.Enums.{
  ActionType, ActionType-discrete, Outcome, FailureType, map_failure_to_action,
  github_rerun_workflow, github_rotate_secret, k8s_restart_pod, k8s_scale_deployment,
  k8s_update_image, argocd_sync, argocd_rollback, docker_clear_cache, noop, notify_only,
  image_pull_backoff, crash_loop_backoff, sync_failed, build_failure, test_failure, auth_expired,
}
use devflowfix.Core.Incident.{Incident}
use devflowfix.Core.Plan.{RemediationPlan, RemediationResult}
use devflowfix.Remediator.{Remediator, completed}

pub data RemediatorClass : Type 0 where
  noop_remediator github_rerun github_secret_rotate : RemediatorClass
  k8s_restart k8s_scale k8s_update : RemediatorClass
  argocd_syncing argocd_rolling_back docker_clearing : RemediatorClass

-- `get_action_type` of each class
unfoldable pub action_of : RemediatorClass → ActionType
action_of noop_remediator = noop
action_of github_rerun = github_rerun_workflow
action_of github_secret_rotate = github_rotate_secret
action_of k8s_restart = k8s_restart_pod
action_of k8s_scale = k8s_scale_deployment
action_of k8s_update = k8s_update_image
action_of argocd_syncing = argocd_sync
action_of argocd_rolling_back = argocd_rollback
action_of docker_clearing = docker_clear_cache

-- The dictionary of the factory as a function.
abbrev pub Registry : Type 0
Registry = ActionType → Option RemediatorClass

unfoldable pub default_remediators : Registry
default_remediators noop = some noop_remediator
default_remediators notify_only = some noop_remediator
default_remediators github_rerun_workflow = some github_rerun
default_remediators github_rotate_secret = some github_secret_rotate
default_remediators k8s_restart_pod = some k8s_restart
default_remediators k8s_scale_deployment = some k8s_scale
default_remediators k8s_update_image = some k8s_update
default_remediators argocd_sync = some argocd_syncing
default_remediators argocd_rollback = some argocd_rolling_back
default_remediators docker_clear_cache = some docker_clearing
default_remediators _ = none

unfoldable pub create : Registry → ActionType → RemediatorClass
create rs a = elim (rs a) [ none ↦ noop_remediator | some c ↦ c ]

unfoldable pub register : ActionType → RemediatorClass → Registry → Registry
unfolding ActionType-discrete
register a c rs b = elim (ActionType-discrete a b) [ yes _ ↦ some c | no _ ↦ rs b ]

-- `_create_success_result` and `_create_failure_result`
unfoldable pub create_success_result : RemediationResult
create_success_result = record {
  success = true;
  outcome = Outcome.success;
  pre_validation_passed = true;
  post_validation_passed = true;
  rollback_required = false;
  rollback_performed = false;
  execution_logs = [];
}

unfoldable pub create_failure_result : Bool → RemediationResult
create_failure_result rollback = record {
  success = false;
  outcome = Outcome.failed;
  pre_validation_passed = true;
  post_validation_passed = true;
  rollback_required = rollback;
  rollback_performed = false;
  execution_logs = [];
}

unfoldable pub noop_instance : Remediator
noop_instance = record { get_action_type = noop; run = λ i p. completed create_success_result }

-- The object of a class, where `others` gives those of the other classes.
unfoldable pub instantiate : (RemediatorClass → Remediator) → RemediatorClass → Remediator
instantiate others noop_remediator = noop_instance
instantiate others c = others c

-- The remediator made for an action handles that action or does nothing. Of the failures, only a
-- failed image pull, a crash loop, a failed sync, build or test and expired credentials get one that
-- handles the action recommended for them; for every other failure, that of exhausted memory among
-- them, the remediator does nothing and reports success.
create-recommended :
    (others : RemediatorClass → Remediator) (a : ActionType) (f : FailureType) (i : Incident)
    (p : RemediationPlan)
    → let recommended = create default_remediators (map_failure_to_action f) in
      let acts =
        (f ≡ image_pull_backoff)
        ⊎ ((f ≡ crash_loop_backoff)
            ⊎ ((f ≡ sync_failed)
                ⊎ ((f ≡ build_failure) ⊎ ((f ≡ test_failure) ⊎ (f ≡ auth_expired))))) in
      (action_of (create default_remediators a) ≡ a
        ⊎ (create default_remediators a ≡ noop_remediator))
      × (acts → action_of recommended ≡ map_failure_to_action f)
      × (¬ acts → (instantiate others recommended).run i p ≡ completed create_success_result)
unfolding create default_remediators action_of map_failure_to_action instantiate noop_instance
create-recommended others a f i p = (ground arith, ground arith, ground arith)
