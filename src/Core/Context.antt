-- ===== src/Core/Context.antt =====
-- app/core/models/context.py: the execution context with its approval.
use devflowfix.Base.{Bool, true, false, not, ◌&&◌, Option, some, String, if◌then◌else◌}
use devflowfix.Core.Enums.{Environment, ApprovalStatus, is_production}

pub record ExecutionContext : Type 0 where
  pub environment : Environment
  pub dry_run : Bool
  pub requires_approval : Bool
  pub approval_status : ApprovalStatus
  pub approver : Option String
  pub namespace : Option String
  pub enable_rollback : Bool

abbrev pub in_production : ExecutionContext → Bool
in_production c = is_production c.environment

unfoldable pub is_approved : ExecutionContext → Bool
is_approved c = elim c.approval_status [ ApprovalStatus.approved ↦ true | _ ↦ false ]

unfoldable pub is_safe_to_execute : ExecutionContext → Bool
unfolding is_approved
is_safe_to_execute c =
    if c.requires_approval && not (is_approved c)
    then false
    else if c.dry_run
    then true
    else if in_production c && not c.enable_rollback
    then false
    else true

unfoldable pub approve : String → ExecutionContext → ExecutionContext
approve who c = record c { approval_status = ApprovalStatus.approved; approver = some who }

unfoldable pub reject : String → ExecutionContext → ExecutionContext
reject who c = record c { approval_status = ApprovalStatus.rejected; approver = some who }

unfoldable pub mark_approval_timeout : ExecutionContext → ExecutionContext
mark_approval_timeout c = record c { approval_status = ApprovalStatus.timeout }
