-- ===== src/Workspace/Store.antt =====
-- The proposals of local-agent/internal/workspace/propose.go and their claims: a proposal is claimed
-- for one apply at a time and is applied once.
pub mod Claims
pub mod Once
mod Tests
use on_code.Prelude.{
  ℕ, Bool, true, false, Option, none, some, List, [], ◌∷◌, Bytes, Result, ok, err, if◌then◌else◌,
  bytes_eq,
}
use on_code.Protocol.Errors.{Code, change_set_not_found, invalid_change_set}
use on_code.Protocol.Messages.{ChangeSet, ActualDiff}

-- the intended end state of a path
pub data PlannedFile : Type 0 where
  delete_file : PlannedFile
  write_file : Bytes → PlannedFile

pub record Proposal : Type 0 where
  pub change_set : ChangeSet
  pub actual_diff : ActualDiff
  pub base_revision : ℕ
  pub planned : List (Bytes × PlannedFile)
  pub applied : Bool
  pub applying : Bool

-- The map `byID`; a stored value is a copy, so that it is not shared with a caller.
abbrev pub ProposalStore : Type 0
ProposalStore = List (Bytes × Proposal)

unfoldable pub find : Bytes → ProposalStore → Option Proposal
find id [] = none
find id ((j, p) ∷ s) = if bytes_eq j id then some p else find id s

unfoldable pub assign : Bytes → Proposal → ProposalStore → ProposalStore
assign id p [] = (id, p) ∷ []
assign id p ((j, q) ∷ s) = if bytes_eq j id then (id, p) ∷ s else (j, q) ∷ assign id p s

unfoldable pub put : Proposal → ProposalStore → ProposalStore
put p s = assign p.change_set.change_set_id p s

abbrev pub claim_found :
    Bytes → ProposalStore → Option Proposal → Result Code Proposal × ProposalStore
claim_found id s none = (err change_set_not_found, s)
claim_found id s (some p) =
    if p.applied
    then (err invalid_change_set, s)
    else if p.applying
    then (err invalid_change_set, s)
    else (ok (record p { applying = true }), assign id (record p { applying = true }) s)

-- `ClaimForApply`: the claimed proposal, or why there is none, and the store behind the call
unfoldable pub claim_for_apply : Bytes → ProposalStore → Result Code Proposal × ProposalStore
claim_for_apply id s = claim_found id s (find id s)

abbrev pub abort_found : Bytes → ProposalStore → Option Proposal → ProposalStore
abort_found id s none = s
abort_found id s (some p) = if p.applied then s else assign id (record p { applying = false }) s

unfoldable pub abort_apply : Bytes → ProposalStore → ProposalStore
abort_apply id s = abort_found id s (find id s)

abbrev pub mark_found :
    Bytes → ProposalStore → Option Proposal → Result Code (Unit {0}) × ProposalStore
mark_found id s none = (err change_set_not_found, s)
mark_found id s (some p) =
    if p.applied
    then (err invalid_change_set, s)
    else (ok tt, assign id (record p { applied = true; applying = false }) s)

unfoldable pub mark_applied : Bytes → ProposalStore → Result Code (Unit {0}) × ProposalStore
mark_applied id s = mark_found id s (find id s)

abbrev pub finish_apply : Bytes → ProposalStore → Result Code (Unit {0}) × ProposalStore
finish_apply = mark_applied
