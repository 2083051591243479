-- ===== src/Workspace/Store/Tests.antt =====
-- Examples of the proposal store (local-agent/internal/workspace/propose.go).
use on_code.Prelude.{◌≡◌, ◌≤◌, refl, false, List, [], ◌∷◌, Bytes, codes, bytes_eq}
use on_code.Workspace.Store.{
  Proposal, ProposalStore, find, assign, put, claim_for_apply, abort_apply, mark_applied,
}
use on_code.Workspace.Store.Claims.{Action, puts, claims, aborts, finishes}
use on_code.Workspace.Store.Once.{count, finishes_now, claims_now, finishes-le-one}

abbrev proposal : Bytes → Proposal
proposal id = record {
  change_set = record { change_set_id = id; in_workspace = []; base_revision = []; changes = [] };
  actual_diff = record { diff_of = id; diff = []; diff_hash = []; diff_workspace = [] };
  base_revision = 3;
  planned = [];
  applied = false;
  applying = false;
}

abbrev first : Bytes
first = codes "CHG-1"

abbrev store : ProposalStore
store = (first, proposal first) ∷ (codes "CHG-2", proposal (codes "CHG-2")) ∷ []

-- a failed apply, one that is made, a further one, and one of another change set
abbrev calls : List Action
calls =
    claims first
    ∷ aborts first
    ∷ claims first
    ∷ finishes first
    ∷ claims first
    ∷ finishes first
    ∷ puts (proposal (codes "CHG-3"))
    ∷ []

finishes-le-one_example : count (finishes_now first) calls store ≤ 1
unfolding bytes_eq
finishes-le-one_example =
    finishes-le-one first calls store (tt, (tt, (tt, (tt, (tt, (tt, (refl, tt)))))))

-- the run above does finish it
finishes_test : count (finishes_now first) calls store ≡ 1
unfolding find assign put claim_for_apply abort_apply mark_applied bytes_eq
finishes_test = refl

claims_test : count (claims_now first) (claims first ∷ claims first ∷ []) store ≡ 1
unfolding find assign claim_for_apply bytes_eq
claims_test = refl
