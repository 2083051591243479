-- ===== src/Protocol/Errors.antt =====
-- protocol/errors/errors.go: the error codes, their catalog, and the protocol error.
use on_code.Prelude.{String, Bool, true, false, Option, none, some, List, [], ◌∷◌, if◌then◌else◌}
use text.Mathlib.Text.{◌==◌ as str_eq}
pub mod Laws
mod Tests

pub data Category : Type 0 where
  protocol_category auth_category permission_category project_category : Category
  workspace_category tool_category build_category test_category git_category : Category
  dependency_category security_category guide_category context_category : Category
  user_category timeout_category system_category : Category

-- The constants of type Code. `other s` is a code that is none of them, such as one that was read
-- from a message.
pub data Code : Type 0 where
  protocol_version_unsupported invalid_request invalid_argument permission_denied : Code
  approval_required approval_rejected approval_invalid project_not_found : Code
  workspace_not_found workspace_file_not_found workspace_file_changed : Code
  workspace_stale invalid_path path_outside_workspace symlink_escape : Code
  file_too_large file_hash_mismatch invalid_change_set change_set_not_found : Code
  diff_mismatch apply_failed tool_not_supported build_tool_not_found build_failed : Code
  test_failed process_timeout process_cancelled git_not_available git_conflict : Code
  git_dirty_worktree dependency_not_found dependency_vulnerable : Code
  security_policy_violation guide_not_found context_not_found user_input_required : Code
  timeout internal_error : Code
  other : String → Code

-- The text of a code.
unfoldable pub code_text : Code → String
code_text protocol_version_unsupported = "PROTOCOL_VERSION_UNSUPPORTED"
code_text invalid_request = "INVALID_REQUEST"
code_text invalid_argument = "INVALID_ARGUMENT"
code_text permission_denied = "PERMISSION_DENIED"
code_text approval_required = "APPROVAL_REQUIRED"
code_text approval_rejected = "APPROVAL_REJECTED"
code_text approval_invalid = "APPROVAL_INVALID"
code_text project_not_found = "PROJECT_NOT_FOUND"
code_text workspace_not_found = "WORKSPACE_NOT_FOUND"
code_text workspace_file_not_found = "WORKSPACE_FILE_NOT_FOUND"
code_text workspace_file_changed = "WORKSPACE_FILE_CHANGED"
code_text workspace_stale = "WORKSPACE_STALE"
code_text invalid_path = "INVALID_PATH"
code_text path_outside_workspace = "PATH_OUTSIDE_WORKSPACE"
code_text symlink_escape = "SYMLINK_ESCAPE"
code_text file_too_large = "FILE_TOO_LARGE"
code_text file_hash_mismatch = "FILE_HASH_MISMATCH"
code_text invalid_change_set = "INVALID_CHANGE_SET"
code_text change_set_not_found = "CHANGE_SET_NOT_FOUND"
code_text diff_mismatch = "DIFF_MISMATCH"
code_text apply_failed = "APPLY_FAILED"
code_text tool_not_supported = "TOOL_NOT_SUPPORTED"
code_text build_tool_not_found = "BUILD_TOOL_NOT_FOUND"
code_text build_failed = "BUILD_FAILED"
code_text test_failed = "TEST_FAILED"
code_text process_timeout = "PROCESS_TIMEOUT"
code_text process_cancelled = "PROCESS_CANCELLED"
code_text git_not_available = "GIT_NOT_AVAILABLE"
code_text git_conflict = "GIT_CONFLICT"
code_text git_dirty_worktree = "GIT_DIRTY_WORKTREE"
code_text dependency_not_found = "DEPENDENCY_NOT_FOUND"
code_text dependency_vulnerable = "DEPENDENCY_VULNERABLE"
code_text security_policy_violation = "SECURITY_POLICY_VIOLATION"
code_text guide_not_found = "GUIDE_NOT_FOUND"
code_text context_not_found = "CONTEXT_NOT_FOUND"
code_text user_input_required = "USER_INPUT_REQUIRED"
code_text timeout = "TIMEOUT"
code_text internal_error = "INTERNAL_ERROR"
code_text (other s) = s

pub record Meta : Type 0 where
  pub category : Category
  pub retryable : Bool

abbrev entry : Category → Bool → Option Meta
entry c r = some (record { category = c; retryable = r })

unfoldable pub catalog : Code → Option Meta
catalog protocol_version_unsupported = entry protocol_category false
catalog invalid_request = entry protocol_category false
catalog invalid_argument = entry protocol_category false
catalog permission_denied = entry permission_category false
catalog approval_required = entry permission_category false
catalog approval_rejected = entry permission_category false
catalog approval_invalid = entry permission_category false
catalog project_not_found = entry project_category false
catalog workspace_not_found = entry workspace_category false
catalog workspace_file_not_found = entry workspace_category false
catalog workspace_file_changed = entry workspace_category false
catalog workspace_stale = entry workspace_category false
catalog invalid_path = entry workspace_category false
catalog path_outside_workspace = entry workspace_category false
catalog symlink_escape = entry workspace_category false
catalog file_too_large = entry workspace_category false
catalog file_hash_mismatch = entry workspace_category false
catalog invalid_change_set = entry workspace_category false
catalog change_set_not_found = entry workspace_category false
catalog diff_mismatch = entry workspace_category false
catalog apply_failed = entry workspace_category false
catalog tool_not_supported = entry tool_category false
catalog build_tool_not_found = entry build_category false
catalog build_failed = entry build_category false
catalog test_failed = entry test_category false
catalog process_timeout = entry timeout_category true
catalog process_cancelled = entry tool_category false
catalog git_not_available = entry git_category false
catalog git_conflict = entry git_category false
catalog git_dirty_worktree = entry git_category false
catalog dependency_not_found = entry dependency_category false
catalog dependency_vulnerable = entry security_category false
catalog security_policy_violation = entry security_category false
catalog guide_not_found = entry guide_category false
catalog context_not_found = entry context_category false
catalog user_input_required = entry user_category false
catalog timeout = entry timeout_category true
catalog internal_error = entry system_category false
catalog (other s) = none

unfoldable pub known : Code → Bool
known code = elim (catalog code) [ none ↦ false | some m ↦ true ]

-- The keys of the catalog. The source lists a Go map, so their order there is not fixed.
pub codes : List Code
codes =
    protocol_version_unsupported ∷ invalid_request ∷ invalid_argument ∷ permission_denied
    ∷ approval_required ∷ approval_rejected ∷ approval_invalid ∷ project_not_found
    ∷ workspace_not_found ∷ workspace_file_not_found ∷ workspace_file_changed ∷ workspace_stale
    ∷ invalid_path ∷ path_outside_workspace ∷ symlink_escape ∷ file_too_large ∷ file_hash_mismatch
    ∷ invalid_change_set ∷ change_set_not_found ∷ diff_mismatch ∷ apply_failed ∷ tool_not_supported
    ∷ build_tool_not_found ∷ build_failed ∷ test_failed ∷ process_timeout ∷ process_cancelled
    ∷ git_not_available ∷ git_conflict ∷ git_dirty_worktree ∷ dependency_not_found
    ∷ dependency_vulnerable ∷ security_policy_violation ∷ guide_not_found ∷ context_not_found
    ∷ user_input_required ∷ timeout ∷ internal_error ∷ []

unfoldable pub category_of : Code → Option Category
category_of code = elim (catalog code) [ none ↦ none | some m ↦ some m.category ]

-- A missing key of a Go map reads as the zero value.
unfoldable pub retryable : Code → Bool
retryable code = elim (catalog code) [ none ↦ false | some m ↦ m.retryable ]

pub record Error : Type 0 where
  pub code : Code
  pub category : Category
  pub message : String
  pub is_retryable : Bool

-- `New`: an unknown code is an error of its own, here `none`.
unfoldable pub new : Code → String → Option Error
new code message = elim (catalog code) [
  | none ↦ none
  | some m ↦ some (record {
    code = code;
    category = m.category;
    message = if str_eq message "" then code_text code else message;
    is_retryable = m.retryable;
  })
]
