-- ===== src/Workspace/Apply/Local/Effects.antt =====
-- What an apply does to the files of a workspace (local-agent/internal/workspace/apply.go).
use on_code.Prelude.{
  ℕ, ◌+◌, ◌≡◌, ◌∙◌, refl, sym, ap, inl, inr, some, List, [], ◌∷◌, Bytes, Result, ok, err, >>=-eq-ok,
  ensure-eq-ok, Result-cases, bytes_eq→eq,
}
use on_code.Protocol.Errors.{Code, file_hash_mismatch, diff_mismatch}
use on_code.Workspace.Apply.{ApplyRequest}
use on_code.Workspace.Apply.Files.Staged.{IsNoStage}
use on_code.Workspace.Apply.Files.{Backup, change_all, change_planned, restore}
use on_code.Workspace.Apply.Files.Rollback.{Restored, change_planned-restores}
use on_code.Workspace.Apply.Files.Success.{change_planned-makes}
use on_code.Workspace.Apply.Local.{
  ApplyResult, changed_since, planned_paths, revalidate, counted, change_valid, change_workspace,
  apply_changes_on,
}
use on_code.Workspace.Apply.Outcome.{claimed_copy, apply_changes-Goes}
use on_code.Prelude.Paths.{render}
use on_code.Workspace.Disk.{Disk, IsLawful}
use on_code.Workspace.Propose.{propose}
use on_code.Workspace.Registry.{World, get_workspace, mutate_found, mutate}
use on_code.Workspace.Resolve.{Workspace}
use on_code.Workspace.Store.{PlannedFile, Proposal, ProposalStore, find}

-- Whatever a roll back writes or removes is restored by that. The disk may still refuse every other call.
abbrev pub Restores : (D : Disk) → IsLawful D → Type 0
Restores D law = (b : Backup) (s : D.State) → law.file (restore D b s) (render b.absolute) ≡ b.saved

module _ (D : Disk) (law : IsLawful D) (all_restored : Restores D law) (q : Bytes)
    (away : IsNoStage q) where
  restored : (bs : List Backup) (s : D.State) → Restored D law bs s
  restored [] s = tt
  restored (b ∷ bs) s = (all_restored b s, restored bs (restore D b s))

  change_planned-keeps :
      (ws : Workspace) (planned : List (Bytes × PlannedFile)) (fail_after : ℕ) (paths : List Bytes)
      (s : D.State) (e : Code)
      → (change_planned D ws planned fail_after paths s).0 ≡ err e
      → law.file (change_planned D ws planned fail_after paths s).1 q ≡ law.file s q
  change_planned-keeps ws planned fail_after paths s e failed =
      elim (Result-cases (change_all D ws planned fail_after paths 0 [] s)) [
        | inl good ↦
            let (_, done, _) =
              change_planned-makes D law ws planned fail_after paths s good.0.1 good.0.0 q good.1
                away in
            absurd (cc (done, failed))
        | inr bad ↦
            (change_planned-restores D law ws planned fail_after paths s bad.0 q bad.1
              (restored bad.0.taken bad.0.reached) away).1
      ]

module _ (D : Disk) (sha256 : Bytes → Bytes) (max_bytes fail_after : ℕ) where
  counted-err :
      (id : Bytes) (prop : Proposal) (paths : List Bytes) (ws : Workspace)
      (m : Result Code (Unit {0}) × D.State) (e : Code)
      → (counted D sha256 max_bytes fail_after id prop paths ws m).0 ≡ err e
      → (m.0 ≡ err e) × ((counted D sha256 max_bytes fail_after id prop paths ws m).1.1 ≡ m.1)
  counted-err id prop paths ws (err x, s) e h = (cc h, refl)
  counted-err id prop paths ws (ok u, s) e h = cc h

  counted-ok :
      (id : Bytes) (prop : Proposal) (paths : List Bytes) (ws : Workspace)
      (m : Result Code (Unit {0}) × D.State) (r : ApplyResult)
      → (counted D sha256 max_bytes fail_after id prop paths ws m).0 ≡ ok r
      → (m.0 ≡ ok tt)
        × ((counted D sha256 max_bytes fail_after id prop paths ws m).1.1 ≡ m.1)
        × (r.workspace_revision ≡ ws.revision + 1)
  counted-ok id prop paths ws (err x, s) r h = cc h
  counted-ok id prop paths ws (ok u, s) r h = (refl, refl, cc h)

  -- A successful change of the files of a workspace: the proposal made again has the hash that it had.
  pub record Changed (prop : Proposal) (ws : Workspace) (s t : D.State) (r : ApplyResult)
      : Type 0 where
    pub fresh : Proposal
    pub proposed : propose D sha256 ws s prop.change_set max_bytes ≡ ok fresh
    pub same_hash : fresh.actual_diff.diff_hash ≡ prop.actual_diff.diff_hash
    pub all_changed :
        (change_planned D ws prop.planned fail_after (planned_paths prop.planned) s).0 ≡ ok tt
    pub reached : t ≡ (change_planned D ws prop.planned fail_after (planned_paths prop.planned) s).1
    pub next_revision : r.workspace_revision ≡ ws.revision + 1

  changed_since_sound :
      (m : Result Code Proposal) (p : Proposal) → changed_since m ≡ ok p → m ≡ ok p
  changed_since_sound (ok x) p e = e
  changed_since_sound (err file_hash_mismatch) p e = cc e
  changed_since_sound (err _) p e = cc e

  change_valid-Changed :
      (id : Bytes) (prop : Proposal) (ws : Workspace) (s : D.State) (m : Result Code (Unit {0}))
      (r : ApplyResult)
      → revalidate D sha256 max_bytes fail_after prop ws s ≡ m
      → (change_valid D sha256 max_bytes fail_after id prop ws s m).0 ≡ ok r
      → Changed prop ws s (change_valid D sha256 max_bytes fail_after id prop ws s m).1.1 r
  unfolding revalidate
  change_valid-Changed id prop ws s (err e) r valid h = cc h
  change_valid-Changed id prop ws s (ok u) r valid h =
      let paths = planned_paths prop.planned in
      let (fresh, again, tested) =
        >>=-eq-ok (changed_since (propose D sha256 ws s prop.change_set max_bytes)) _ valid in
      let same = ensure-eq-ok _ diff_mismatch u tested in
      let (done, state, revision) =
        counted-ok id prop paths ws (change_planned D ws prop.planned fail_after paths s) r h in
      record {
        fresh = fresh;
        proposed =
            changed_since_sound (propose D sha256 ws s prop.change_set max_bytes) fresh again;
        same_hash = bytes_eq→eq fresh.actual_diff.diff_hash prop.actual_diff.diff_hash same;
        all_changed = done;
        reached = state;
        next_revision = revision;
      }

  -- A successful apply: the workspace is registered, the proposal is stored and approved for this request, and
  -- the proposal that its change set makes on the files as they are now has the approved hash.
  pub record Approved (approve : Bytes → Bytes → Bytes → Result Code (Unit {0}))
      (req : ApplyRequest) (store : ProposalStore) (w : World D) (t : D.State) (r : ApplyResult)
      : Type 0 where
    pub workspace : Workspace
    pub known : get_workspace req.workspace_id w.workspaces ≡ ok workspace
    pub proposal : Proposal
    pub stored : find req.change_set_id store ≡ some proposal
    pub approved : approve req.approval_id req.change_set_id req.approved_diff_hash ≡ ok tt
    pub changed : Changed (claimed_copy proposal) workspace w.disk t r
    pub approved_hash : proposal.actual_diff.diff_hash ≡ req.approved_diff_hash

  mutate_found-Changed :
      (id : Bytes) (set : Bytes) (prop : Proposal) (w : World D) (m : Result Code Workspace)
      (r : ApplyResult)
      → (mutate_found D id (change_workspace D sha256 max_bytes fail_after set prop) w m).0 ≡ ok r
      → (ws : Workspace) × (m ≡ ok ws)
        × Changed prop ws w.disk
            (mutate_found D id (change_workspace D sha256 max_bytes fail_after set prop) w m).1.disk
            r
  unfolding change_workspace
  mutate_found-Changed id set prop w (err e) r h = cc h
  mutate_found-Changed id set prop w (ok ws) r h = (
    ws,
    refl,
    change_valid-Changed set prop ws w.disk
        (revalidate D sha256 max_bytes fail_after prop ws w.disk) r refl h,
  )

  -- Only an approved diff is applied: where an apply succeeds, the proposal is stored and approved, all of its
  -- planned files are changed, and the diff that its change set makes on the files just before has the
  -- hash that was approved.
  pub apply_changes_on-Approved :
      (approve : Bytes → Bytes → Bytes → Result Code (Unit {0})) (req : ApplyRequest)
      (store : ProposalStore) (w : World D) (r : ApplyResult)
      → (apply_changes_on D sha256 max_bytes fail_after approve req store w).0 ≡ ok r
      → Approved approve req store w
          (apply_changes_on D sha256 max_bytes fail_after approve req store w).1.1.disk
          r
  unfolding apply_changes_on mutate
  apply_changes_on-Approved approve req store w r h =
      elim (apply_changes-Goes approve
        (λ prop.
          mutate D req.workspace_id
            (change_workspace D sha256 max_bytes fail_after req.change_set_id prop))
        req store w) [
          | inl refused ↦ absurd (cc (h, refused.answer))
          | inr made ↦
              let p = claimed_copy made.proposal in
              let (ws, known, done) =
                mutate_found-Changed req.workspace_id req.change_set_id p w
                  (get_workspace req.workspace_id w.workspaces) r (sym made.answer ∙ h) in
              record {
                workspace = ws;
                known = known;
                proposal = made.proposal;
                stored = made.stored;
                approved = made.approved;
                changed = rw made.world done;
                approved_hash = sym (
                    bytes_eq→eq req.approved_diff_hash made.proposal.actual_diff.diff_hash
                      made.same_hash);
              }
        ]

  module _ (law : IsLawful D) (all_restored : Restores D law) (q : Bytes) (away : IsNoStage q) where
    change_valid-keeps :
        (id : Bytes) (prop : Proposal) (ws : Workspace) (s : D.State) (m : Result Code (Unit {0}))
        (e : Code)
        → (change_valid D sha256 max_bytes fail_after id prop ws s m).0 ≡ err e
        → law.file (change_valid D sha256 max_bytes fail_after id prop ws s m).1.1 q ≡ law.file s q
    change_valid-keeps id prop ws s (err x) e h = refl
    change_valid-keeps id prop ws s (ok u) e h =
        let paths = planned_paths prop.planned in
        let (failed, state) =
          counted-err id prop paths ws (change_planned D ws prop.planned fail_after paths s) e h in
        ap (λ t. law.file t q) state
        ∙ change_planned-keeps D law all_restored q away ws prop.planned fail_after paths s e failed

    mutate_found-keeps :
        (id : Bytes) (set : Bytes) (prop : Proposal) (w : World D) (m : Result Code Workspace)
        (e : Code)
        → (mutate_found D id (change_workspace D sha256 max_bytes fail_after set prop) w m).0
          ≡ err e
        → law.file
            (mutate_found D id (change_workspace D sha256 max_bytes fail_after set prop) w m).1.disk
            q
          ≡ law.file w.disk q
    unfolding change_workspace
    mutate_found-keeps id set prop w (err x) e h = refl
    mutate_found-keeps id set prop w (ok ws) e h =
        change_valid-keeps set prop ws w.disk
          (revalidate D sha256 max_bytes fail_after prop ws w.disk) e h

    -- An apply that fails, for whatever reason and at whatever file, leaves every file as it was, if the steps
    -- of a roll back can be made. Only paths of staged files are left out.
    pub apply_changes_on-keeps :
        (approve : Bytes → Bytes → Bytes → Result Code (Unit {0})) (req : ApplyRequest)
        (store : ProposalStore) (w : World D) (e : Code)
        → (apply_changes_on D sha256 max_bytes fail_after approve req store w).0 ≡ err e
        → law.file (apply_changes_on D sha256 max_bytes fail_after approve req store w).1.1.disk q
          ≡ law.file w.disk q
    unfolding apply_changes_on mutate
    apply_changes_on-keeps approve req store w e h =
        elim (apply_changes-Goes approve
          (λ prop.
            mutate D req.workspace_id
              (change_workspace D sha256 max_bytes fail_after req.change_set_id prop))
          req store w) [
            | inl refused ↦ ap (λ x. law.file x.disk q) refused.untouched
            | inr made ↦
                let p = claimed_copy made.proposal in
                ap (λ x. law.file x.disk q) made.world
                ∙ mutate_found-keeps req.workspace_id req.change_set_id p w
                    (get_workspace req.workspace_id w.workspaces) e (sym made.answer ∙ h)
          ]
