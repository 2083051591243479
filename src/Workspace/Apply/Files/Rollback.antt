-- ===== src/Workspace/Apply/Files/Rollback.antt =====
-- A change of the files that fails leaves them as they were (local-agent/internal/workspace/apply.go).
use on_code.Prelude.{
  ℕ, ◌+◌, ◌≡◌, ◌∙◌, refl, sym, ap, Bool, true, false, Option, none, some, List, [], ◌∷◌, Bytes,
  Result, ok, err, if◌then◌else◌, bytes_eq, bytes_eq→eq, inl, inr, Bool-cases,
}
use on_code.Prelude.Paths.{FilePath, render}
use on_code.Workspace.Disk.{
  Disk, IsLawful, Stat, found, missing, unknown, Info, Kind, regular, directory, symlink, Read,
  contents, gone, unreadable, Removal, removed, absent, refused,
}
use on_code.Workspace.Resolve.{Workspace, resolve_path}
use on_code.Protocol.Errors.{Code}
use on_code.Workspace.Store.{PlannedFile, delete_file, write_file}
use on_code.Workspace.Apply.Files.Staged.{IsNoStage}
use on_code.Workspace.Apply.Files.{
  Backup, Stop, dir_of, staged_at, saved_by, saved_of, plan_of, Outcome, after_unlink, after_rename,
  after_clear, after_stage, after_mkdir, place, change_to, Round, with_backups, backed_up, resolved,
  change_one, is_forced, forced, then_rest, change_all, restore_text, restore, rollback, tidy,
  change_planned,
}

-- What the roll back of these backups makes of a file that is `v` now.
abbrev pub undone : Bytes → List Backup → Option Bytes → Option Bytes
undone q [] v = v
undone q (b ∷ bs) v = undone q bs (if bytes_eq q (render b.absolute) then b.saved else v)

module _ (D : Disk) (law : IsLawful D) where
  -- Every step of a roll back restored its file; the source does not look.
  abbrev pub Restored : List Backup → D.State → Type 0
  Restored [] s = Unit
  Restored (b ∷ bs) s =
      (law.file (restore D b s) (render b.absolute) ≡ b.saved) × Restored bs (restore D b s)

  restore-other :
      (b : Backup) (s : D.State) (q : Bytes)
      → bytes_eq q (render b.absolute) ≡ false
      → law.file (restore D b s) q ≡ law.file s q
  restore-other b s q e = go b.saved
    where
      go : (o : Option Bytes) → law.file (restore_text D b.absolute o s) q ≡ law.file s q
      go none = law.file-remove s (render b.absolute) q e
      go (some text) =
          law.file-write (D.mkdir_all s (dir_of b.absolute)).1 (render b.absolute) text q e
          ∙ law.file-mkdir_all s (dir_of b.absolute) q

  restore_lem :
      (b : Backup) (s : D.State) (q : Bytes)
      → law.file (restore D b s) (render b.absolute) ≡ b.saved
      → law.file (restore D b s) q
        ≡ (if bytes_eq q (render b.absolute) then b.saved else law.file s q)
  restore_lem b s q e = elim (Bool-cases (bytes_eq q (render b.absolute))) [
    | inl same ↦
        rw same (ap (law.file (restore D b s)) (bytes_eq→eq q (render b.absolute) same) ∙ e)
    | inr other ↦ rw other (restore-other b s q other)
  ]

  rollback_lem :
      (bs : List Backup) (s : D.State) (q : Bytes)
      → Restored bs s
      → law.file (rollback D bs s) q ≡ undone q bs (law.file s q)
  unfolding rollback
  rollback_lem [] s q h = refl
  rollback_lem (b ∷ bs) s q h =
      rollback_lem bs (restore D b s) q h.1 ∙ ap (undone q bs) (restore_lem b s q h.0)

  module _ (s : D.State) (p : Bytes) (saved : Option Bytes) where
    saved_by_lem :
        (i : Info) (k : Kind) (r : Read)
        → D.lstat s p ≡ found i
        → i.kind ≡ k
        → D.read s p ≡ r
        → saved_by k r ≡ ok saved
        → law.file s p ≡ saved
    saved_by_lem i regular (contents text) l e d g =
        law.file-read s p text (rw l (rw e refl)) d ∙ cc g
    saved_by_lem i regular gone l e d g = cc g
    saved_by_lem i regular unreadable l e d g = cc g
    saved_by_lem i symlink r l e d g = cc g
    saved_by_lem i directory r l e d g = law.file-none s p (rw l (rw e refl)) ∙ cc g

    pub saved_of_lem :
        (a : Stat) (r : Read)
        → D.lstat s p ≡ a
        → D.read s p ≡ r
        → saved_of a r ≡ ok saved
        → law.file s p ≡ saved
    saved_of_lem missing r l d g = law.file-none s p (rw l refl) ∙ cc g
    saved_of_lem unknown r l d g = law.file-none s p (rw l refl) ∙ cc g
    saved_of_lem (found i) r l d g = saved_by_lem i i.kind r l refl d g

  -- One path that no staged file is written at.
  module _ (q : Bytes) (away : IsNoStage q) where
    abbrev pub Off : Bytes → D.State → D.State → Type 0
    Off p s t = bytes_eq q p ≡ false → law.file t q ≡ law.file s q

    abbrev pub Elsewhere : Option Bytes → Type 0
    Elsewhere none = Unit
    Elsewhere (some p) = bytes_eq q p ≡ false

    -- where an outcome is a state or stops, the file is as it was, unless it is the one that is changed
    abbrev pub OutcomeOff : Bytes → D.State → List Backup → Outcome D → Type 0
    OutcomeOff p s bs (ok t) = Off p s t
    OutcomeOff p s bs (err x) = (x.taken ≡ bs) × Elsewhere x.leftover × Off p s x.reached

    after_unlink-Off :
        (p : Bytes) (bs : List Backup) (s : D.State) (m : Removal × D.State)
        → Off p s m.1
        → OutcomeOff p s bs (after_unlink D bs m)
    after_unlink-Off p bs s (removed, t) h = h
    after_unlink-Off p bs s (absent, t) h = (refl, tt, h)
    after_unlink-Off p bs s (refused, t) h = (refl, tt, h)

    after_rename-Off :
        (p : Bytes) (bs : List Backup) (s : D.State) (m : Bool × D.State)
        → Off p s m.1
        → OutcomeOff p s bs (after_rename D p bs m)
    after_rename-Off p bs s (true, t) h = h
    after_rename-Off p bs s (false, t) h =
        (refl, tt, λ e. law.file-remove t (staged_at p) q (away p) ∙ h e)

    after_clear-Off :
        (p : Bytes) (bs : List Backup) (s : D.State) (m : Removal × D.State)
        → Off p s m.1
        → OutcomeOff p s bs (after_clear D p bs m)
    after_clear-Off p bs s (refused, t) h =
        (refl, tt, λ e. law.file-remove t (staged_at p) q (away p) ∙ h e)
    after_clear-Off p bs s (removed, t) h =
        after_rename-Off p bs s (D.rename t (staged_at p) p)
          (λ e. law.file-rename t (staged_at p) p q (away p) e ∙ h e)
    after_clear-Off p bs s (absent, t) h =
        after_rename-Off p bs s (D.rename t (staged_at p) p)
          (λ e. law.file-rename t (staged_at p) p q (away p) e ∙ h e)

    after_stage-Off :
        (p : Bytes) (bs : List Backup) (s : D.State) (m : Bool × D.State)
        → Off p s m.1
        → OutcomeOff p s bs (after_stage D p bs m)
    after_stage-Off p bs s (false, t) h = (refl, away p, h)
    after_stage-Off p bs s (true, t) h =
        after_clear-Off p bs s (D.remove t p) (λ e. law.file-remove t p q e ∙ h e)

    after_mkdir-Off :
        (p text : Bytes) (bs : List Backup) (s : D.State) (m : Bool × D.State)
        → Off p s m.1
        → OutcomeOff p s bs (after_mkdir D p text bs m)
    after_mkdir-Off p text bs s (false, t) h = (refl, tt, h)
    after_mkdir-Off p text bs s (true, t) h =
        after_stage-Off p bs s (D.write t (staged_at p) text)
          (λ e. law.file-write t (staged_at p) text q (away p) ∙ h e)

    pub change_to-Off :
        (plan : PlannedFile) (abs : FilePath) (saved : Option Bytes) (bs : List Backup)
        (s : D.State)
        → OutcomeOff (render abs) s bs (change_to D plan abs saved bs s)
    unfolding place
    change_to-Off delete_file abs none bs s = λ e. refl
    change_to-Off delete_file abs (some text) bs s =
        after_unlink-Off (render abs) bs s (D.remove s (render abs))
          (law.file-remove s (render abs) q)
    change_to-Off (write_file text) abs saved bs s =
        after_mkdir-Off (render abs) text bs s (D.mkdir_all s (dir_of abs))
          (λ e. law.file-mkdir_all s (dir_of abs) q)

    -- The roll back from here would make the file what it was at first.
    module _ (v : Option Bytes) where
      abbrev Undoes : List Backup → D.State → Type 0
      Undoes bs s = undone q bs (law.file s q) ≡ v

      abbrev RoundUndoes : Round D → Type 0
      RoundUndoes (ok (bs, s)) = Undoes bs s
      RoundUndoes (err x) = Elsewhere x.leftover × Undoes x.taken x.reached

      backed_up_Undoes :
          (rel : Bytes) (abs : FilePath) (saved : Option Bytes) (bs : List Backup) (s t : D.State)
          → law.file s (render abs) ≡ saved
          → Undoes bs s
          → Off (render abs) s t
          → Undoes (record { relative = rel; absolute = abs; saved = saved } ∷ bs) t
      backed_up_Undoes rel abs saved bs s t e h off = ap (undone q bs) now ∙ h
        where
          now : (if bytes_eq q (render abs) then saved else law.file t q) ≡ law.file s q
          now = elim (Bool-cases (bytes_eq q (render abs))) [
            | inl same ↦ rw same (sym (ap (law.file s) (bytes_eq→eq q (render abs) same) ∙ e))
            | inr other ↦ rw other (off other)
          ]

      with_backups-Undoes :
          (rel : Bytes) (abs : FilePath) (saved : Option Bytes) (bs : List Backup) (s : D.State)
          (o : Outcome D)
          → law.file s (render abs) ≡ saved
          → Undoes bs s
          → OutcomeOff
              (render abs)
              s
              (record { relative = rel; absolute = abs; saved = saved } ∷ bs)
              o
          → RoundUndoes
              (with_backups D (record { relative = rel; absolute = abs; saved = saved } ∷ bs) o)
      with_backups-Undoes rel abs saved bs s (ok t) e h off =
          backed_up_Undoes rel abs saved bs s t e h off
      with_backups-Undoes rel abs saved bs s (err x) e h (taken, elsewhere, off) =
          (elsewhere, rw taken (backed_up_Undoes rel abs saved bs s x.reached e h off))

      backed_up-Undoes :
          (plan : PlannedFile) (rel : Bytes) (abs : FilePath) (r : Result Code (Option Bytes))
          (bs : List Backup) (s : D.State)
          → saved_of (D.lstat s (render abs)) (D.read s (render abs)) ≡ r
          → Undoes bs s
          → RoundUndoes (backed_up D plan rel abs r bs s)
      backed_up-Undoes plan rel abs (err e) bs s now h = (tt, h)
      backed_up-Undoes plan rel abs (ok saved) bs s now h =
          with_backups-Undoes rel abs saved bs s (change_to D plan abs saved _ s)
            (saved_of_lem s (render abs) saved _ _ refl refl now) h
            (change_to-Off plan abs saved _ s)

      resolved-Undoes :
          (plan : PlannedFile) (rel : Bytes) (r : Result Code FilePath) (bs : List Backup)
          (s : D.State)
          → Undoes bs s
          → RoundUndoes (resolved D plan rel r bs s)
      resolved-Undoes plan rel (err e) bs s h = (tt, h)
      resolved-Undoes plan rel (ok abs) bs s h = backed_up-Undoes plan rel abs _ bs s refl h

      forced-Undoes :
          (b : Bool) (bs : List Backup) (s : D.State) (next : Round D)
          → Undoes bs s
          → RoundUndoes next
          → RoundUndoes (forced D b bs s next)
      forced-Undoes true bs s next h g = (tt, h)
      forced-Undoes false bs s next h g = g

      then_rest-Undoes :
          (m : Round D) (rest : List Backup → D.State → Round D)
          → RoundUndoes m
          → ((bs : List Backup) (s : D.State) → Undoes bs s → RoundUndoes (rest bs s))
          → RoundUndoes (then_rest D m rest)
      then_rest-Undoes (err x) rest h g = h
      then_rest-Undoes (ok (bs, s)) rest h g = g bs s h

      change_all-Undoes :
          (ws : Workspace) (planned : List (Bytes × PlannedFile)) (fail_after : ℕ)
          (paths : List Bytes) (applied : ℕ) (bs : List Backup) (s : D.State)
          → Undoes bs s
          → RoundUndoes (change_all D ws planned fail_after paths applied bs s)
      unfolding change_all change_one
      change_all-Undoes ws planned fail_after [] applied bs s h = h
      change_all-Undoes ws planned fail_after (rel ∷ paths) applied bs s h =
          then_rest-Undoes (change_one D ws (plan_of rel planned) rel bs s) _
            (resolved-Undoes (plan_of rel planned) rel (resolve_path D ws s rel) bs s h)
            (λ cs t g.
              forced-Undoes (is_forced D fail_after (applied + 1)) cs t _ g
                (change_all-Undoes ws planned fail_after paths (applied + 1) cs t g))

    tidy-Elsewhere :
        (o : Option Bytes) (s : D.State) → Elsewhere o → law.file (tidy D o s) q ≡ law.file s q
    tidy-Elsewhere none s h = refl
    tidy-Elsewhere (some p) s h = law.file-remove s p q h

  -- A change of the files that fails, at whatever call, leaves every file with the text that it had
  -- before, where each step of the roll back restored its file. Only paths of staged files are left out.
  pub change_planned-restores :
      (ws : Workspace) (planned : List (Bytes × PlannedFile)) (fail_after : ℕ) (paths : List Bytes)
      (s : D.State) (x : Stop D.State) (q : Bytes)
      → change_all D ws planned fail_after paths 0 [] s ≡ err x
      → Restored x.taken x.reached
      → IsNoStage q
      → ((change_planned D ws planned fail_after paths s).0 ≡ err x.reason)
        × (law.file (change_planned D ws planned fail_after paths s).1 q ≡ law.file s q)
  unfolding change_planned
  change_planned-restores ws planned fail_after paths s x q e h away =
      let undo : RoundUndoes q away (law.file s q) (err x) =
        rw e at (change_all-Undoes q away (law.file s q) ws planned fail_after paths 0 [] s refl) in
      rw e (
        refl,
        tidy-Elsewhere q away x.leftover (rollback D x.taken x.reached) undo.0
            ∙ rollback_lem x.taken x.reached q h
            ∙ undo.1,
      )
