-- ===== src/Workspace/Apply/Outcome.antt =====
-- How a call of `ApplyChanges` goes (local-agent/internal/workspace/apply.go): it is refused and changes
-- nothing, or its answer is that of the change of the files.
use on_code.Prelude.{
  ◌≡◌, ◌∙◌, refl, sym, ap, ◌⊎◌, inl, inr, true, false, Option, none, some, Bytes, Result, ok, err,
  Bool-cases, arith, bytes_eq, bytes_eq_refl,
}
use on_code.Protocol.Errors.{Code, invalid_argument, diff_mismatch}
use on_code.Protocol.Ids
use on_code.Protocol.Ids.{IdError}
use on_code.Protocol.Ids.Kinds
use on_code.Workspace.Store.{
  Proposal, ProposalStore, find, claim_found, claim_for_apply, finish_apply,
}
use on_code.Workspace.Store.Claims.{free, claimed, is_ok, phase}
use on_code.Workspace.Apply.{
  ApplyRequest, Applied, finish_claim, conclude, change_files, apply_claimed, apply_approved,
  apply_valid, apply_changes, finish-is_ok, claim-Claims,
}

-- the proposal as its claim returns it
abbrev pub claimed_copy : Proposal → Proposal
claimed_copy p = record p { applying = true }

claim_found_sound :
    (id : Bytes) (s : ProposalStore) (o : Option Proposal) (p : Proposal)
    → (claim_found id s o).0 ≡ ok p
    → (q : Proposal) × (o ≡ some q) × (claimed_copy q ≡ p)
claim_found_sound id s none p e = cc e
claim_found_sound id s (some q) p e = (q, refl, ground arith)

finish_claim_lem :
    {R : Type 0} (r : R) (id : Bytes) (m : Result Code (Unit {0}) × ProposalStore)
    → is_ok m.0 ≡ true
    → (finish_claim r id m).0 ≡ ok r
unfolding finish_claim
finish_claim_lem r id (ok u, t) good = refl
finish_claim_lem r id (err e, t) good = cc good

-- A claimed proposal can be finished, so the answer is that of the change of the files.
conclude_lem :
    {R : Type 0} (id : Bytes) (r : Result Code R) (s : ProposalStore)
    → phase id s ≡ claimed
    → (conclude id r s).0 ≡ r
unfolding conclude
conclude_lem id (err e) s h = refl
conclude_lem id (ok r) s h = finish_claim_lem r id (finish_apply id s) (finish-is_ok id s h)

module _ {R W : Type 0} (approve : Bytes → Bytes → Bytes → Result Code (Unit {0}))
    (mutate : Proposal → W → Result Code R × W) where
  -- A call that is refused.
  pub record Refused (w : W) (a : Applied R W) : Type 0 where
    pub reason : Code
    pub answer : a.0 ≡ err reason
    pub untouched : a.1.1 ≡ w

  -- A call that changes the files of a stored proposal, which is approved and has the workspace and the
  -- hash of the request.
  pub record Made (req : ApplyRequest) (s : ProposalStore) (w : W) (a : Applied R W) : Type 0 where
    pub proposal : Proposal
    pub stored : find req.change_set_id s ≡ some proposal
    pub approved : approve req.approval_id req.change_set_id req.approved_diff_hash ≡ ok tt
    pub same_workspace : bytes_eq proposal.change_set.in_workspace req.workspace_id ≡ true
    pub same_hash : bytes_eq req.approved_diff_hash proposal.actual_diff.diff_hash ≡ true
    pub answer : a.0 ≡ (mutate (claimed_copy proposal) w).0
    pub world : a.1.1 ≡ (mutate (claimed_copy proposal) w).1

  abbrev pub Goes : ApplyRequest → ProposalStore → W → Applied R W → Type 0
  Goes req s w a = Refused w a ⊎ Made req s w a

  -- a claimed proposal is refused by its workspace or its hash, or its files are changed
  module _ (req : ApplyRequest) (p : Proposal) (w : W) where
    other_workspace :
        bytes_eq p.change_set.in_workspace req.workspace_id ≡ false
        → change_files approve mutate req (claimed_copy p) w ≡ (err invalid_argument, w)
    unfolding change_files
    other_workspace e = rw e refl

    other_hash :
        bytes_eq p.change_set.in_workspace req.workspace_id ≡ true
        → bytes_eq req.approved_diff_hash p.actual_diff.diff_hash ≡ false
        → change_files approve mutate req (claimed_copy p) w ≡ (err diff_mismatch, w)
    unfolding change_files
    other_hash e h = rw (e, h) refl

    same_both :
        bytes_eq p.change_set.in_workspace req.workspace_id ≡ true
        → bytes_eq req.approved_diff_hash p.actual_diff.diff_hash ≡ true
        → change_files approve mutate req (claimed_copy p) w ≡ mutate (claimed_copy p) w
    unfolding change_files
    same_both e h = rw (e, h) refl

  claimed-Goes :
      (req : ApplyRequest) (s t : ProposalStore) (w : W) (p : Proposal)
      → find req.change_set_id s ≡ some p
      → phase req.change_set_id t ≡ claimed
      → approve req.approval_id req.change_set_id req.approved_diff_hash ≡ ok tt
      → Goes req s w (apply_claimed approve mutate req (ok (claimed_copy p), t) w)
  unfolding apply_claimed
  claimed-Goes req s t w p found now approved =
      elim (Bool-cases (bytes_eq p.change_set.in_workspace req.workspace_id)) [
        | inr other ↦
            let e = other_workspace req p w other in
            inl (record {
              reason = invalid_argument;
              answer = answers ∙ ap (λ m. m.0) e;
              untouched = ap (λ m. m.1) e;
            })
        | inl same ↦ elim (Bool-cases (bytes_eq req.approved_diff_hash p.actual_diff.diff_hash)) [
          | inr other ↦
              let e = other_hash req p w same other in
              inl (record {
                reason = diff_mismatch;
                answer = answers ∙ ap (λ m. m.0) e;
                untouched = ap (λ m. m.1) e;
              })
          | inl hash ↦
              let e = same_both req p w same hash in
              inr (record {
                proposal = p;
                stored = found;
                approved = approved;
                same_workspace = same;
                same_hash = hash;
                answer = answers ∙ ap (λ m. m.0) e;
                world = ap (λ m. m.1) e;
              })
        ]
      ]
    where
      answers :
          (conclude req.change_set_id (change_files approve mutate req (claimed_copy p) w).0 t).0
          ≡ (change_files approve mutate req (claimed_copy p) w).0
      answers =
          conclude_lem req.change_set_id (change_files approve mutate req (claimed_copy p) w).0 t
            now

  apply_claimed-Goes :
      (req : ApplyRequest) (s : ProposalStore) (w : W) (m : Result Code Proposal × ProposalStore)
      → claim_for_apply req.change_set_id s ≡ m
      → approve req.approval_id req.change_set_id req.approved_diff_hash ≡ ok tt
      → Goes req s w (apply_claimed approve mutate req m w)
  unfolding apply_claimed claim_for_apply
  apply_claimed-Goes req s w (err e, t) now approved =
      inl (record { reason = e; answer = refl; untouched = refl })
  apply_claimed-Goes req s w (ok p, t) now approved =
      let id = req.change_set_id in
      let (q, found, copy) = claim_found_sound id s (find id s) p (ap (λ m. m.0) now) in
      let claims = claim-Claims id s in
      let was : phase id s ≡ free = claims.was_free (ap (λ m. is_ok m.0) now) in
      let after : phase id t ≡ claimed =
        ap (λ m. phase id m.1) (sym now) ∙ claims.goes id ∙ rw (bytes_eq_refl id, now) refl in
      rw (← copy) (claimed-Goes req s t w q found after approved)

  apply_approved-Goes :
      (req : ApplyRequest) (s : ProposalStore) (w : W) (r : Result Code (Unit {0}))
      → approve req.approval_id req.change_set_id req.approved_diff_hash ≡ r
      → Goes req s w (apply_approved approve mutate req r s w)
  apply_approved-Goes req s w (err e) now =
      inl (record { reason = e; answer = refl; untouched = refl })
  apply_approved-Goes req s w (ok u) now =
      apply_claimed-Goes req s w (claim_for_apply req.change_set_id s) refl now

  apply_valid-Goes :
      (req : ApplyRequest) (s : ProposalStore) (w : W) (r : Result IdError (Unit {0}))
      → Goes req s w (apply_valid approve mutate req r s w)
  apply_valid-Goes req s w (err e) =
      inl (record { reason = invalid_argument; answer = refl; untouched = refl })
  apply_valid-Goes req s w (ok u) = apply_approved-Goes req s w _ refl

  -- A call is refused and changes nothing, or the proposal is stored, approved and of the workspace and
  -- the hash of the request, and the call answers with what the change of its files says.
  pub apply_changes-Goes :
      (req : ApplyRequest) (s : ProposalStore) (w : W)
      → Goes req s w (apply_changes approve mutate req s w)
  unfolding apply_changes
  apply_changes-Goes req s w =
      apply_valid-Goes req s w (Ids.validate Kinds.change_set req.change_set_id)
