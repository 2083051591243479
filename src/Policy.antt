-- ===== src/Policy.antt =====
-- local-agent/internal/policy/approval.go: the approvals that are checked without the server.
use on_code.Prelude.{not, Bytes, Result, ok, err, ◌>>◌, ensure, is_empty}
use on_code.Protocol.Errors.{
  Code, approval_required, approval_invalid, invalid_argument, diff_mismatch,
}
use on_code.Protocol.Ids
use on_code.Protocol.Ids.{IdError}
use on_code.Protocol.Ids.Kinds

abbrev pub as_approval : Result IdError (Unit {0}) → Result Code (Unit {0})
as_approval (ok u) = ok tt
as_approval (err e) = err approval_invalid

-- `LocalApproval.Validate`, for the validator of ApplyChanges that the tools of the agent have
unfoldable pub local_approval : Bytes → Bytes → Bytes → Result Code (Unit {0})
local_approval approval set hash = do
  ensure (not (is_empty approval)) approval_required
  as_approval (Ids.validate Kinds.approval approval)
  ensure (not (is_empty set)) invalid_argument
  ensure (not (is_empty hash)) diff_mismatch
