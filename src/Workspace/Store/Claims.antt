-- ===== src/Workspace/Store/Claims.antt =====
-- At most one apply at a time, and one in all (local-agent/internal/workspace/propose.go).
use on_code.Prelude.{
  ◌≡◌, ◌⊎◌, ◌↔◌, refl, sym, bytes_eq→eq, inl, inr, Bool, true, false, Option, none, some, [], ◌∷◌,
  Bytes, Result, ok, err, arith, if◌then◌else◌, bytes_eq, bytes_eq_iff, bytes_eq_refl, Bool-cases,
}
use on_code.Protocol.Errors.{Code}
use on_code.Workspace.Store.{
  Proposal, ProposalStore, claim_found, abort_found, mark_found, find, assign, put, claim_for_apply,
  abort_apply, mark_applied, finish_apply,
}

pub find-assign :
    (id j : Bytes) (p : Proposal) (s : ProposalStore)
    → find j (assign id p s) ≡ (if bytes_eq id j then some p else find j s)
unfolding find assign
find-assign id j p [] = refl
find-assign id j p ((i, q) ∷ s) =
    ground (arith, find-assign id j p s, bytes_eq_iff id j, bytes_eq_iff i id, bytes_eq_iff i j)

pub find-assign_self :
    (id : Bytes) (p : Proposal) (s : ProposalStore) → find id (assign id p s) ≡ some p
find-assign_self id p s = rw (find-assign id id p s, bytes_eq_refl id)

-- The state of one change set in the store.
pub data Phase : Type 0 where
  absent free claimed finished : Phase

abbrev pub phase_of : Option Proposal → Phase
phase_of none = absent
phase_of (some p) = if p.applied then finished else if p.applying then claimed else free

abbrev pub phase : Bytes → ProposalStore → Phase
phase id s = phase_of (find id s)

-- A call of the store by some client.
pub data Action : Type 0 where
  puts : Proposal → Action
  claims : Bytes → Action
  aborts : Bytes → Action
  finishes : Bytes → Action

abbrev pub step : Action → ProposalStore → ProposalStore
step (puts p) s = put p s
step (claims id) s = (claim_for_apply id s).1
step (aborts id) s = abort_apply id s
step (finishes id) s = (finish_apply id s).1

abbrev pub is_ok {ℓ} : {A : Type ℓ} → Result Code A → Bool
is_ok (ok a) = true
is_ok (err e) = false

-- does the call succeed, for the calls that report it?
abbrev pub succeeds : Action → ProposalStore → Bool
succeeds (claims id) s = is_ok (claim_for_apply id s).0
succeeds (finishes id) s = is_ok (finish_apply id s).0
succeeds a s = true

-- the state of a change set after a call of the store for it
abbrev pub next_phase : Action → Phase → Phase
next_phase (claims id) free = claimed
next_phase (aborts id) claimed = free
next_phase (finishes id) free = finished
next_phase (finishes id) claimed = finished
next_phase (puts p) f = if p.applied then finished else if p.applying then claimed else free
next_phase a f = f

abbrev pub target : Action → Bytes
target (puts p) = p.change_set.change_set_id
target (claims id) = id
target (aborts id) = id
target (finishes id) = id

phase-assign :
    (id j : Bytes) (p : Proposal) (s : ProposalStore)
    → phase j (assign id p s) ≡ (if bytes_eq id j then phase_of (some p) else phase j s)
phase-assign id j p s = rw (find-assign id j p s) (ground arith)

phase-same :
    (id j : Bytes) (s : ProposalStore)
    → (if bytes_eq id j then phase id s else phase j s) ≡ phase j s
phase-same id j s = elim (Bool-cases (bytes_eq id j)) [
  | inl same ↦ rw (bytes_eq→eq id j same) (ground arith)
  | inr other ↦ rw other
]

module _ (id j : Bytes) (s : ProposalStore) where
  abbrev Moves : Action → Option Proposal → ProposalStore → Type 0
  Moves a o t = phase j t ≡ (if bytes_eq id j then next_phase a (phase_of o) else phase j s)

  stays :
      (a : Action) (o : Option Proposal)
      → find id s ≡ o
      → next_phase a (phase_of o) ≡ phase_of o
      → Moves a o s
  stays a o e n = rw (n, ← e) (sym (phase-same id j s))

  claim-Moves : (o : Option Proposal) → find id s ≡ o → Moves (claims id) o (claim_found id s o).1
  claim-Moves none e = stays (claims id) none e refl
  claim-Moves (some p) e =
      ground
        (arith, stays (claims id) (some p) e, phase-assign id j (record p { applying = true }) s)

  abort-Moves : (o : Option Proposal) → find id s ≡ o → Moves (aborts id) o (abort_found id s o)
  abort-Moves none e = stays (aborts id) none e refl
  abort-Moves (some p) e =
      ground
        (arith, stays (aborts id) (some p) e, phase-assign id j (record p { applying = false }) s)

  mark-Moves : (o : Option Proposal) → find id s ≡ o → Moves (finishes id) o (mark_found id s o).1
  mark-Moves none e = stays (finishes id) none e refl
  mark-Moves (some p) e = ground (
    arith,
    stays (finishes id) (some p) e,
    phase-assign id j (record p { applied = true; applying = false }) s,
  )

-- Every call of the store moves the change set that it names through the phases, and no other one.
pub phase-step :
    (a : Action) (j : Bytes) (s : ProposalStore)
    → phase j (step a s)
      ≡ (if bytes_eq (target a) j then next_phase a (phase (target a) s) else phase j s)
unfolding put claim_for_apply abort_apply mark_applied
phase-step (puts p) j s = phase-assign p.change_set.change_set_id j p s
phase-step (claims id) j s = claim-Moves id j s (find id s) refl
phase-step (aborts id) j s = abort-Moves id j s (find id s) refl
phase-step (finishes id) j s = mark-Moves id j s (find id s) refl

pub claim_found-ok :
    (id : Bytes) (s : ProposalStore) (o : Option Proposal)
    → (is_ok (claim_found id s o).0 ≡ true) ↔ (phase_of o ≡ free)
claim_found-ok id s none = ground arith
claim_found-ok id s (some p) = ground arith

pub mark_found-ok :
    (id : Bytes) (s : ProposalStore) (o : Option Proposal)
    → (is_ok (mark_found id s o).0 ≡ true) ↔ ((phase_of o ≡ free) ⊎ (phase_of o ≡ claimed))
mark_found-ok id s none = ground arith
mark_found-ok id s (some p) = ground arith
