-- ===== src/Rules/Blacklist.antt =====
-- app/domain/rules/blacklist.py, and the copy of its list in
-- app/domain/validators/pre_remediation.py. The texts of the enumeration values are distinct, so a
-- pair of values stands for the pair of texts; a `set` is a list without repetition.
pub mod Membership
use devflowfix.Base.{
  Bool, true, false, not, ◌&&◌, ◌||◌, Option, none, some, List, [], ◌∷◌, ◌++◌, if◌then◌else◌, any,
  length, ℕ,
}
use devflowfix.Core.Enums.{
  FailureType, oom_killed, auth_expired, permission_denied, config_error, invalid_yaml,
  missing_secret, disk_full, build_failure, test_failure, lint_failure, resource_exhausted,
  FailureType-discrete, ActionType-discrete, ActionType, k8s_restart_pod, github_rerun_workflow,
  argocd_sync, k8s_delete_evicted_pods,
}
use devflowfix.Core.Incident.{Incident}
use devflowfix.Core.Plan.{RemediationPlan}

abbrev pub Combination : Type 0
Combination = FailureType × ActionType

unfoldable pub same : Combination → Combination → Bool
same (f, a) (g, b) = elim (FailureType-discrete f g) [
  | no _ ↦ false
  | yes _ ↦ (elim (ActionType-discrete a b) [ yes _ ↦ true | no _ ↦ false ])
]

-- combination in blacklist
unfoldable pub contains : Combination → List Combination → Bool
unfolding same FailureType-discrete ActionType-discrete
contains x [] = false
contains x (y ∷ ys) = same x y || contains x ys

-- `BlacklistRule._load_default_blacklist`
unfoldable pub default_blacklist : List Combination
default_blacklist =
    (oom_killed, k8s_restart_pod)
    ∷ (oom_killed, github_rerun_workflow)
    ∷ (auth_expired, k8s_restart_pod)
    ∷ (auth_expired, argocd_sync)
    ∷ (permission_denied, k8s_restart_pod)
    ∷ (config_error, k8s_restart_pod)
    ∷ (invalid_yaml, k8s_restart_pod)
    ∷ (invalid_yaml, argocd_sync)
    ∷ (missing_secret, k8s_restart_pod)
    ∷ (missing_secret, argocd_sync)
    ∷ (disk_full, k8s_delete_evicted_pods)
    ∷ (build_failure, k8s_restart_pod)
    ∷ (test_failure, k8s_restart_pod)
    ∷ (lint_failure, k8s_restart_pod)
    ∷ (resource_exhausted, k8s_restart_pod)
    ∷ []

-- `BlacklistRule.evaluate`, for the failure type of the incident and the action of the plan
unfoldable pub evaluate_blacklist : List Combination → Incident → Option RemediationPlan → Bool
evaluate_blacklist blacklist i none = true
evaluate_blacklist blacklist i (some p) = elim i.failure_type [
  | none ↦ true
  | some f ↦ not (contains (f, p.action_type) blacklist)
]

unfoldable pub add_to_blacklist : FailureType → ActionType → List Combination → List Combination
add_to_blacklist f a blacklist =
    if contains (f, a) blacklist then blacklist else blacklist ++ (f, a) ∷ []

-- set.discard: no error where the pair is not there
unfoldable pub remove_from_blacklist :
    FailureType → ActionType → List Combination → List Combination
remove_from_blacklist f a [] = []
remove_from_blacklist f a (y ∷ ys) =
    let rest = remove_from_blacklist f a ys in if same (f, a) y then rest else y ∷ rest

unfoldable pub is_blacklisted : FailureType → ActionType → List Combination → Bool
is_blacklisted f a blacklist = contains (f, a) blacklist

unfoldable pub get_blacklist_size : List Combination → ℕ
get_blacklist_size blacklist = length blacklist
