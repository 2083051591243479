-- ===== src/Workspace/Store/Once.antt =====
-- Runs of the proposal store (local-agent/internal/workspace/propose.go): any sequence of calls by
-- any number of clients.
use on_code.Prelude.{
  ℕ, suc, ◌≤◌, ◌≡◌, ◌≢◌, refl, ap, ◌∙◌, inl, inr, Bool, true, false, ◌&&◌, List, [], ◌∷◌, Bytes,
  arith, if◌then◌else◌, bytes_eq, bytes_eq→eq, bytes_eq_refl, Bool-cases, All,
}
use on_code.Workspace.Store.{ProposalStore, find, claim_for_apply, finish_apply, mark_applied}
use on_code.Workspace.Store.Claims.{
  Phase, free, claimed, finished, Action, puts, claims, aborts, finishes, step, is_ok, next_phase,
  target, phase, phase-step, claim_found-ok, mark_found-ok,
}

abbrev pub run : List Action → ProposalStore → ProposalStore
run [] s = s
run (a ∷ rest) s = run rest (step a s)

-- is this call a successful finish, or a successful claim, of the change set?
abbrev pub finishes_now : Bytes → Action → ProposalStore → Bool
finishes_now id (finishes j) s = bytes_eq j id && is_ok (finish_apply j s).0
finishes_now id a s = false

abbrev pub claims_now : Bytes → Action → ProposalStore → Bool
claims_now id (claims j) s = bytes_eq j id && is_ok (claim_for_apply j s).0
claims_now id a s = false

abbrev pub count : (Action → ProposalStore → Bool) → List Action → ProposalStore → ℕ
count test [] s = 0
count test (a ∷ rest) s =
    if test a s then suc (count test rest (step a s)) else count test rest (step a s)

-- calls that do not store a proposal of that change set again
abbrev pub KeepsProposal : Bytes → Action → Type 0
KeepsProposal id (puts p) = bytes_eq p.change_set.change_set_id id ≡ false
KeepsProposal id a = Unit

-- calls that do not end a claim of that change set either
abbrev pub KeepsClaim : Bytes → Action → Type 0
KeepsClaim id (claims j) = Unit
KeepsClaim id a = bytes_eq (target a) id ≡ false

phase-step_self :
    (a : Action) (s : ProposalStore)
    → phase (target a) (step a s) ≡ next_phase a (phase (target a) s)
phase-step_self a s = phase-step a (target a) s ∙ rw (bytes_eq_refl (target a))

phase-step_other :
    (a : Action) (id : Bytes) (s : ProposalStore)
    → bytes_eq (target a) id ≡ false
    → phase id (step a s) ≡ phase id s
phase-step_other a id s e = phase-step a id s ∙ rw e

next_finished :
    (id : Bytes) (a : Action)
    → KeepsProposal id a
    → bytes_eq (target a) id ≡ true
    → next_phase a finished ≡ finished
next_finished id (puts p) k e = cc
next_finished id (claims j) k e = refl
next_finished id (aborts j) k e = refl
next_finished id (finishes j) k e = refl

next_claimed :
    (id : Bytes) (a : Action)
    → KeepsClaim id a
    → bytes_eq (target a) id ≡ true
    → next_phase a claimed ≡ claimed
next_claimed id (puts p) k e = cc
next_claimed id (claims j) k e = refl
next_claimed id (aborts j) k e = cc
next_claimed id (finishes j) k e = cc

-- a phase that the calls for the change set keep is kept by every call
phase_stays :
    (id : Bytes) (a : Action) (s : ProposalStore) (f : Phase)
    → (bytes_eq (target a) id ≡ true → next_phase a f ≡ f)
    → phase id s ≡ f
    → phase id (step a s) ≡ f
phase_stays id a s f keep e = elim (Bool-cases (bytes_eq (target a) id)) [
  | inr other ↦ phase-step_other a id s other ∙ e
  | inl same ↦
      let j = bytes_eq→eq (target a) id same in
      rw (← j) (phase-step_self a s ∙ ap (next_phase a) (rw j e) ∙ keep same)
]

-- what a successful finish says of the phase before it and behind it
finish_phase :
    (id : Bytes) (a : Action) (s : ProposalStore)
    → finishes_now id a s ≡ true
    → (phase id s ≢ finished) × (phase id (step a s) ≡ finished)
unfolding mark_applied
finish_phase id (puts p) s e = cc
finish_phase id (claims j) s e = cc
finish_phase id (aborts j) s e = cc
finish_phase id (finishes j) s e =
    let same : j ≡ id = bytes_eq→eq j id (ground arith) in
    let before = (mark_found-ok j s (find j s)).0 (ground arith) in
    let after = phase-step_self (finishes j) s in rw (← same) (ground arith, ground arith)

finishes-none :
    (id : Bytes) (calls : List Action) (s : ProposalStore)
    → All (KeepsProposal id) calls
    → phase id s ≡ finished
    → count (finishes_now id) calls s ≡ 0
finishes-none id [] s k e = refl
finishes-none id (a ∷ rest) s k e = elim (Bool-cases (finishes_now id a s)) [
  | inl now ↦ absurd ((finish_phase id a s now).0 e)
  | inr later ↦ rw later (
      finishes-none id rest (step a s) k.1 (phase_stays id a s finished (next_finished id a k.0) e))
]

-- In every run of the store that does not store a proposal of the change set again, its apply is
-- finished at most once.
pub finishes-le-one :
    (id : Bytes) (calls : List Action) (s : ProposalStore)
    → All (KeepsProposal id) calls
    → count (finishes_now id) calls s ≤ 1
finishes-le-one id [] s k = omega arith
finishes-le-one id (a ∷ rest) s k = elim (Bool-cases (finishes_now id a s)) [
  | inl now ↦
      rw now (omega (arith, finishes-none id rest (step a s) k.1 (finish_phase id a s now).1))
  | inr later ↦ rw later (finishes-le-one id rest (step a s) k.1)
]

claim_phase :
    (id : Bytes) (a : Action) (s : ProposalStore)
    → claims_now id a s ≡ true
    → (phase id s ≡ free) × (phase id (step a s) ≡ claimed)
unfolding claim_for_apply
claim_phase id (puts p) s e = cc
claim_phase id (finishes j) s e = cc
claim_phase id (aborts j) s e = cc
claim_phase id (claims j) s e =
    let same : j ≡ id = bytes_eq→eq j id (ground arith) in
    let before = (claim_found-ok j s (find j s)).0 (ground arith) in
    let after = phase-step_self (claims j) s in rw (← same) (before, ground arith)

claims-none :
    (id : Bytes) (calls : List Action) (s : ProposalStore)
    → All (KeepsClaim id) calls
    → phase id s ≡ claimed
    → count (claims_now id) calls s ≡ 0
claims-none id [] s k e = refl
claims-none id (a ∷ rest) s k e = elim (Bool-cases (claims_now id a s)) [
  | inl now ↦ cc ((claim_phase id a s now).0, e)
  | inr later ↦
      rw later
        (claims-none id rest (step a s) k.1 (phase_stays id a s claimed (next_claimed id a k.0) e))
]

-- In every run of the store in which no claim of the change set is given up or finished and it is
-- not stored again, it is claimed at most once.
pub claims-le-one :
    (id : Bytes) (calls : List Action) (s : ProposalStore)
    → All (KeepsClaim id) calls
    → count (claims_now id) calls s ≤ 1
claims-le-one id [] s k = omega arith
claims-le-one id (a ∷ rest) s k = elim (Bool-cases (claims_now id a s)) [
  | inl now ↦ rw now (omega (arith, claims-none id rest (step a s) k.1 (claim_phase id a s now).1))
  | inr later ↦ rw later (claims-le-one id rest (step a s) k.1)
]
