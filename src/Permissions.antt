-- ===== src/Permissions.antt =====
-- Permissions, src/core/permissions: what an access mode allows and approves, and the gate that
-- asks for an approval.
use tomorrowedge.Prelude.{
  String, Bool, true, false, not, ◌&&◌, ◌||◌, Option, [], ◌∷◌, cat, or_else, if◌then◌else◌,
}

pub data AccessMode : Type 0 where
  restricted partial full : AccessMode

pub record AccessPolicy : Type 0 where
  pub mode : AccessMode
  pub cloud_allowed : Bool
  pub patch_allowed : Bool
  pub shell_allowed : Bool
  pub repair_allowed : Bool
  pub patch_approved : Bool
  pub shell_approved : Bool
  pub repair_approved : Bool

pub record AccessPolicyOptions : Type 0 where
  pub mode : Option AccessMode
  pub approve_patch : Bool
  pub approve_shell : Bool
  pub approve_repair : Bool

abbrev policy_of : AccessMode → AccessPolicyOptions → AccessPolicy
policy_of AccessMode.restricted options = record {
  mode = AccessMode.restricted;
  cloud_allowed = false;
  patch_allowed = false;
  shell_allowed = false;
  repair_allowed = false;
  patch_approved = false;
  shell_approved = false;
  repair_approved = false;
}
policy_of AccessMode.full options = record {
  mode = AccessMode.full;
  cloud_allowed = true;
  patch_allowed = true;
  shell_allowed = true;
  repair_allowed = true;
  patch_approved = true;
  shell_approved = true;
  repair_approved = true;
}
policy_of AccessMode.partial options = record {
  mode = AccessMode.partial;
  cloud_allowed = true;
  patch_allowed = true;
  shell_allowed = true;
  repair_allowed = true;
  patch_approved = options.approve_patch;
  shell_approved = options.approve_shell;
  repair_approved = options.approve_repair;
}

-- `buildAccessPolicy`, with the mode of the configuration.
unfoldable pub build_access_policy : AccessMode → AccessPolicyOptions → AccessPolicy
build_access_policy configured options = policy_of (or_else options.mode configured) options

abbrev yes_no : Bool → String
yes_no value = if value then "yes" else "no"

abbrev describe_partial : AccessPolicy → String
describe_partial access =
    if access.patch_approved || access.shell_approved || access.repair_approved
    then cat (
        "MODE: PARTIAL SUPERVISION - explicit approvals: patch="
        ∷ yes_no access.patch_approved
        ∷ " shell="
        ∷ yes_no access.shell_approved
        ∷ " repair="
        ∷ yes_no access.repair_approved
        ∷ "; unapproved actions still stop at gates."
        ∷ [])
    else "MODE: PARTIAL SUPERVISION - patch, shell, and repair require explicit approval."

unfoldable pub describe_access_policy : AccessPolicy → String
describe_access_policy access = elim access.mode [
  | AccessMode.full ↦
      "MODE: FULL AUTONOMY - patch, shell, and repair are auto-approved; every step is visible and logged."
  | AccessMode.restricted ↦ "MODE: RESTRICTED - cloud/model calls and local mutations are blocked."
  | AccessMode.partial ↦ describe_partial access
]

pub data PermissionKind : Type 0 where
  read_file write_file apply_patch run_shell send_cloud_context : PermissionKind

pub data PermissionRisk : Type 0 where
  low medium high : PermissionRisk

pub record PermissionRequest : Type 0 where
  pub kind : PermissionKind
  pub summary : String
  pub risk : PermissionRisk
  pub target : Option String

pub record PermissionDecision : Type 0 where
  pub approved : Bool
  pub reason : String

abbrev permission_text : PermissionKind → String
permission_text PermissionKind.read_file = "read_file"
permission_text PermissionKind.write_file = "write_file"
permission_text PermissionKind.apply_patch = "apply_patch"
permission_text PermissionKind.run_shell = "run_shell"
permission_text PermissionKind.send_cloud_context = "send_cloud_context"

abbrev is_low : PermissionRisk → Bool
is_low PermissionRisk.low = true
is_low _ = false

-- `ApprovalGate.requireApproval`
unfoldable pub require_approval : Bool → PermissionRequest → PermissionDecision
require_approval safe_mode request =
    if not safe_mode && is_low request.risk
    then record { approved = true; reason = "Safe mode disabled for low-risk request." }
    else record {
      approved = false;
      reason =
          cat
            ("Approval required for " ∷ permission_text request.kind ∷ ": " ∷ request.summary ∷ []);
    }
