-- ===== src/Workspace/Apply.antt =====
-- `ApplyChanges` of local-agent/internal/workspace/apply.go, around the change of the files: the
-- approval, the claim of the proposal, and its end or its return. The change of the files, what the
-- source hands to Registry.Mutate, is a parameter on the state `W` of the workspaces, and the
-- approval validator is another one.
use on_code.Prelude.{
  ◌≡◌, ◌≢◌, ◌∙◌, refl, inl, inr, Bool, true, false, not, Option, none, some, Bytes, Result, ok, err,
  Result-cases, Bool-cases, arith, if◌then◌else◌, bytes_eq, bytes_eq→eq, bytes_eq_refl,
}
use on_code.Protocol.Errors.{Code, invalid_argument, diff_mismatch}
use on_code.Protocol.Ids
use on_code.Protocol.Ids.{IdError}
use on_code.Protocol.Ids.Kinds
use on_code.Workspace.Store.{
  Proposal, ProposalStore, find, claim_for_apply, abort_apply, finish_apply, mark_applied,
}
use on_code.Workspace.Store.Claims.{
  Phase, free, claimed, finished, claims, aborts, finishes, is_ok, next_phase, phase, phase-step,
  claim_found-ok, mark_found-ok,
}
pub mod Files
pub mod Local
pub mod Outcome
mod Tests

pub record ApplyRequest : Type 0 where
  pub change_set_id : Bytes
  pub workspace_id : Bytes
  pub approval_id : Bytes
  pub approved_diff_hash : Bytes

-- the store and the workspaces behind a call, with its result
abbrev pub Applied : Type 0 → Type 0 → Type 0
Applied R W = Result Code R × (ProposalStore × W)

-- The end of a claim: a failure gives it back.
unfoldable pub finish_claim :
    {R : Type 0}
    → R
    → Bytes
    → Result Code (Unit {0}) × ProposalStore
    → Result Code R × ProposalStore
finish_claim r id (ok u, s) = (ok r, s)
finish_claim r id (err e, s) = (err e, abort_apply id s)

unfoldable pub conclude :
    {R : Type 0} → Bytes → Result Code R → ProposalStore → Result Code R × ProposalStore
conclude id (err e) s = (err e, abort_apply id s)
conclude id (ok r) s = finish_claim r id (finish_apply id s)

module _ {R W : Type 0} (approve : Bytes → Bytes → Bytes → Result Code (Unit {0}))
    (mutate : Proposal → W → Result Code R × W) where
  -- the tests on a claimed proposal, and the change of the files
  unfoldable pub change_files : ApplyRequest → Proposal → W → Result Code R × W
  change_files req p w =
      if not (bytes_eq p.change_set.in_workspace req.workspace_id)
      then (err invalid_argument, w)
      else if not (bytes_eq req.approved_diff_hash p.actual_diff.diff_hash)
      then (err diff_mismatch, w)
      else mutate p w

  unfoldable pub apply_claimed :
      ApplyRequest → Result Code Proposal × ProposalStore → W → Applied R W
  unfolding change_files conclude finish_claim
  apply_claimed req (err e, s) w = (err e, (s, w))
  apply_claimed req (ok p, s) w =
      let (result, world) = change_files req p w in
      let (answer, store) = conclude req.change_set_id result s in (answer, (store, world))

  abbrev pub apply_approved :
      ApplyRequest → Result Code (Unit {0}) → ProposalStore → W → Applied R W
  apply_approved req (err e) s w = (err e, (s, w))
  apply_approved req (ok u) s w = apply_claimed req (claim_for_apply req.change_set_id s) w

  abbrev pub apply_valid :
      ApplyRequest → Result IdError (Unit {0}) → ProposalStore → W → Applied R W
  apply_valid req (err e) s w = (err invalid_argument, (s, w))
  apply_valid req (ok u) s w =
      apply_approved req (approve req.approval_id req.change_set_id req.approved_diff_hash) s w

  -- `ApplyChanges`
  unfoldable pub apply_changes : ApplyRequest → ProposalStore → W → Applied R W
  unfolding apply_claimed
  apply_changes req s w = apply_valid req (Ids.validate Kinds.change_set req.change_set_id) s w

-- A phase after a call for `id`: finished by a success, and else as before.
abbrev pub EndsIn :
    {R : Type 0} → Bytes → Bytes → Result Code R → ProposalStore → ProposalStore → Type 0
EndsIn id j r s t =
    phase j t ≡ (if bytes_eq id j then (if is_ok r then finished else phase id s) else phase j s)

abort-phase :
    (id j : Bytes) (s : ProposalStore)
    → phase id s ≡ claimed
    → phase j (abort_apply id s) ≡ (if bytes_eq id j then free else phase j s)
abort-phase id j s e = phase-step (aborts id) j s ∙ rw e refl

finish-phase :
    (id j : Bytes) (s : ProposalStore)
    → phase id s ≡ claimed
    → phase j (finish_apply id s).1 ≡ (if bytes_eq id j then finished else phase j s)
finish-phase id j s e = phase-step (finishes id) j s ∙ rw e refl

pub finish-is_ok :
    (id : Bytes) (s : ProposalStore) → phase id s ≡ claimed → is_ok (finish_apply id s).0 ≡ true
unfolding mark_applied
finish-is_ok id s e = (mark_found-ok id s (find id s)).1 (inr e)

-- The phase that a call leaves a claimed proposal in.
abbrev Settled :
    {R : Type 0} → Bytes → Bytes → ProposalStore → Result Code R × ProposalStore → Type 0
Settled id j s m =
    phase j m.1 ≡ (if bytes_eq id j then (if is_ok m.0 then finished else free) else phase j s)

finish_claim-Settled :
    {R : Type 0} (r : R) (id j : Bytes) (s : ProposalStore)
    (m : Result Code (Unit {0}) × ProposalStore)
    → is_ok m.0 ≡ true
    → phase j m.1 ≡ (if bytes_eq id j then finished else phase j s)
    → Settled id j s (finish_claim r id m)
unfolding finish_claim
finish_claim-Settled r id j s (ok u, t) good h = h
finish_claim-Settled r id j s (err e, t) good h = absurd (cc good)

conclude-Settled :
    {R : Type 0} (id j : Bytes) (r : Result Code R) (s : ProposalStore)
    → phase id s ≡ claimed
    → Settled id j s (conclude id r s)
unfolding conclude
conclude-Settled id j (err e) s h = abort-phase id j s h
conclude-Settled id j (ok r) s h =
    finish_claim-Settled r id j s (finish_apply id s) (finish-is_ok id s h) (finish-phase id j s h)

next-not_free : (id : Bytes) (f : Phase) → f ≢ free → next_phase (claims id) f ≡ f
next-not_free id free n = absurd (n refl)
next-not_free id claimed n = refl
next-not_free id finished n = refl
next-not_free id Phase.absent n = refl

-- What a claim leaves behind, by whether it succeeds.
pub record Claims (id : Bytes) (s : ProposalStore) (m : Result Code Proposal × ProposalStore)
    : Type 0 where
  pub was_free : is_ok m.0 ≡ true → phase id s ≡ free
  pub goes :
      (j : Bytes)
      → phase j m.1
        ≡ (if bytes_eq id j then (if is_ok m.0 then claimed else phase id s) else phase j s)

pub claim-Claims : (id : Bytes) (s : ProposalStore) → Claims id s (claim_for_apply id s)
unfolding claim_for_apply
claim-Claims id s = elim (Bool-cases (is_ok (claim_for_apply id s).0)) [
  | inl good ↦
      let was = (claim_found-ok id s (find id s)).0 good in
      record { was_free = λ e. was; goes = λ j. phase-step (claims id) j s ∙ rw (was, good) refl }
  | inr bad ↦
      let stays =
        next-not_free id (phase id s) (λ f. cc ((claim_found-ok id s (find id s)).1 f, bad)) in
      record {
        was_free = λ e. cc (bad, e);
        goes = λ j. phase-step (claims id) j s ∙ rw (stays, bad) refl;
      }
]

EndsIn-same :
    (R : Type 0) (id j : Bytes) (e : Code) (s : ProposalStore) → EndsIn {R = R} id j (err e) s s
EndsIn-same R id j e s = elim (Bool-cases (bytes_eq id j)) [
  | inl same ↦ rw (bytes_eq→eq id j same) (ground arith)
  | inr other ↦ rw other
]

module _ {R W : Type 0} (approve : Bytes → Bytes → Bytes → Result Code (Unit {0}))
    (mutate : Proposal → W → Result Code R × W) where
  abbrev pub Ends : Bytes → Bytes → ProposalStore → Applied R W → Type 0
  Ends id j s a = EndsIn id j a.0 s a.1.0

  apply_claimed-EndsIn :
      (req : ApplyRequest) (j : Bytes) (s : ProposalStore) (w : W)
      (m : Result Code Proposal × ProposalStore)
      → Claims req.change_set_id s m
      → Ends req.change_set_id j s (apply_claimed approve mutate req m w)
  unfolding apply_claimed
  apply_claimed-EndsIn req j s w (err e, t) c = c.goes j
  apply_claimed-EndsIn req j s w (ok p, t) c =
      let id = req.change_set_id in
      let was : phase id s ≡ free = c.was_free refl in
      let now : phase id t ≡ claimed = c.goes id ∙ rw (bytes_eq_refl id) in
      let other : (if bytes_eq id j then free else phase j t)
          ≡ (if bytes_eq id j then free else phase j s) =
        ground (arith, c.goes j) in
      let done = conclude-Settled id j (change_files approve mutate req p w).0 t now in
      ground (arith, done, other, was)

  apply_approved-EndsIn :
      (req : ApplyRequest) (j : Bytes) (r : Result Code (Unit {0})) (s : ProposalStore) (w : W)
      → Ends req.change_set_id j s (apply_approved approve mutate req r s w)
  apply_approved-EndsIn req j (err e) s w = EndsIn-same R req.change_set_id j e s
  apply_approved-EndsIn req j (ok u) s w =
      apply_claimed-EndsIn req j s w (claim_for_apply req.change_set_id s)
        (claim-Claims req.change_set_id s)

  apply_valid-EndsIn :
      (req : ApplyRequest) (j : Bytes) (r : Result IdError (Unit {0})) (s : ProposalStore) (w : W)
      → Ends req.change_set_id j s (apply_valid approve mutate req r s w)
  apply_valid-EndsIn req j (err e) s w = EndsIn-same R req.change_set_id j invalid_argument s
  apply_valid-EndsIn req j (ok u) s w =
      apply_approved-EndsIn req j (approve req.approval_id req.change_set_id req.approved_diff_hash)
        s w

  -- A successful apply finishes its change set. An apply that fails, at any point, gives the claim
  -- back: every change set is in the phase that it was in. No call changes the phase of another change
  -- set.
  pub apply_changes-EndsIn :
      (req : ApplyRequest) (j : Bytes) (s : ProposalStore) (w : W)
      → Ends req.change_set_id j s (apply_changes approve mutate req s w)
  unfolding apply_changes
  apply_changes-EndsIn req j s w =
      apply_valid-EndsIn req j (Ids.validate Kinds.change_set req.change_set_id) s w
