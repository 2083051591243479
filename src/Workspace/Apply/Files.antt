-- ===== src/Workspace/Apply/Files.antt =====
-- The change of the files in `ApplyChanges` of local-agent/internal/workspace/apply.go: each planned file
-- is backed up and then written or removed, and the first failure rolls all of them back. The modes
-- of files are not modelled.
pub mod Staged
pub mod Rollback
pub mod Success
use on_code.Prelude.{
  ℕ, suc, ◌+◌, Bool, true, false, ◌&&◌, not, Option, none, some, List, [], ◌∷◌, ◌++◌, Bytes, codes,
  Result, ok, err, ltb, leb, if◌then◌else◌, bytes_eq,
}
use on_code.Prelude.Paths.{FilePath, render}
use on_code.Protocol.Errors.{Code, apply_failed}
use on_code.Workspace.Disk.{
  Disk, Stat, found, missing, unknown, Kind, regular, directory, symlink, Read, contents, gone,
  unreadable, Removal, removed, absent, refused,
}
use on_code.Workspace.Resolve.{Workspace, resolve_path}
use on_code.Workspace.Store.{PlannedFile, delete_file, write_file}

-- backupEntry; `saved` is the text of a file that existed
pub record Backup : Type 0 where
  pub relative : Bytes
  pub absolute : FilePath
  pub saved : Option Bytes

-- Where the loop stops: what it has backed up, the last one first, the state that is rolled back, and
-- the staged file that is removed behind that.
pub record Stop (S : Type 0) : Type 0 where
  pub reason : Code
  pub taken : List Backup
  pub reached : S
  pub leftover : Option Bytes

abbrev pub but_last : List Bytes → List Bytes
but_last [] = []
but_last (e ∷ []) = []
but_last (e ∷ f ∷ es) = e ∷ but_last (f ∷ es)

-- `filepath.Dir`
abbrev pub dir_of : FilePath → Bytes
dir_of p = render (record p { elements = but_last p.elements })

abbrev pub staged_at : Bytes → Bytes
staged_at p = p ++ codes ".oncode-tmp"

-- what is backed up: a link is refused, and what is no regular file has no text
abbrev pub saved_by : Kind → Read → Result Code (Option Bytes)
saved_by regular (contents text) = ok (some text)
saved_by regular r = err apply_failed
saved_by directory r = ok none
saved_by symlink r = err apply_failed

abbrev pub saved_of : Stat → Read → Result Code (Option Bytes)
saved_of (found i) r = saved_by i.kind r
saved_of missing r = ok none
saved_of unknown r = ok none

-- `prop.Planned[rel]`, where a missing key reads as the zero value
unfoldable pub plan_of : Bytes → List (Bytes × PlannedFile) → PlannedFile
plan_of p [] = write_file []
plan_of p ((q, plan) ∷ planned) = if bytes_eq q p then plan else plan_of p planned

module _ (D : Disk) where
  abbrev pub Outcome : Type 0
  Outcome = Result (Stop D.State) D.State

  abbrev pub stop : List Backup → D.State → Option Bytes → Outcome
  stop bs s leftover =
      err (record { reason = apply_failed; taken = bs; reached = s; leftover = leftover })

  abbrev pub after_unlink : List Backup → Removal × D.State → Outcome
  after_unlink bs (removed, s) = ok s
  after_unlink bs (absent, s) = stop bs s none
  after_unlink bs (refused, s) = stop bs s none

  -- the deletion of a file that existed
  abbrev pub unlink : Bytes → Option Bytes → List Backup → D.State → Outcome
  unlink p none bs s = ok s
  unlink p (some text) bs s = after_unlink bs (D.remove s p)

  -- a staged file that could not be moved is removed before the roll back
  abbrev pub after_rename : Bytes → List Backup → Bool × D.State → Outcome
  after_rename p bs (true, s) = ok s
  after_rename p bs (false, s) = stop bs (D.remove s (staged_at p)).1 none

  -- `replaceFile`
  abbrev pub after_clear : Bytes → List Backup → Removal × D.State → Outcome
  after_clear p bs (refused, s) = stop bs (D.remove s (staged_at p)).1 none
  after_clear p bs (removed, s) = after_rename p bs (D.rename s (staged_at p) p)
  after_clear p bs (absent, s) = after_rename p bs (D.rename s (staged_at p) p)

  abbrev pub after_stage : Bytes → List Backup → Bool × D.State → Outcome
  after_stage p bs (true, s) = after_clear p bs (D.remove s p)
  after_stage p bs (false, s) = stop bs s (some (staged_at p))

  abbrev pub after_mkdir : Bytes → Bytes → List Backup → Bool × D.State → Outcome
  after_mkdir p text bs (true, s) = after_stage p bs (D.write s (staged_at p) text)
  after_mkdir p text bs (false, s) = stop bs s none

  -- the write of a file, by way of a staged one
  unfoldable pub place : FilePath → Bytes → List Backup → D.State → Outcome
  place abs text bs s = after_mkdir (render abs) text bs (D.mkdir_all s (dir_of abs))

  abbrev pub change_to : PlannedFile → FilePath → Option Bytes → List Backup → D.State → Outcome
  change_to delete_file abs saved bs s = unlink (render abs) saved bs s
  change_to (write_file text) abs saved bs s = place abs text bs s

  abbrev pub Round : Type 0
  Round = Result (Stop D.State) (List Backup × D.State)

  abbrev pub with_backups : List Backup → Outcome → Round
  with_backups bs (ok s) = ok (bs, s)
  with_backups bs (err x) = err x

  abbrev pub backed_up :
      PlannedFile → Bytes → FilePath → Result Code (Option Bytes) → List Backup → D.State → Round
  backed_up plan rel abs (err e) bs s =
      err (record { reason = e; taken = bs; reached = s; leftover = none })
  backed_up plan rel abs (ok saved) bs s =
      let taken = record { relative = rel; absolute = abs; saved = saved } ∷ bs in
      with_backups taken (change_to plan abs saved taken s)

  abbrev pub resolved : PlannedFile → Bytes → Result Code FilePath → List Backup → D.State → Round
  resolved plan rel (err e) bs s =
      err (record { reason = e; taken = bs; reached = s; leftover = none })
  resolved plan rel (ok abs) bs s =
      backed_up plan rel abs (saved_of (D.lstat s (render abs)) (D.read s (render abs))) bs s

  -- one round of the loop
  unfoldable pub change_one : Workspace → PlannedFile → Bytes → List Backup → D.State → Round
  change_one ws plan rel bs s = resolved plan rel (resolve_path D ws s rel) bs s

  -- opts.FailAfter, a hook of the tests; 0 is off
  abbrev pub is_forced : ℕ → ℕ → Bool
  is_forced fail_after applied = ltb 0 fail_after && leb fail_after applied

  abbrev pub forced : Bool → List Backup → D.State → Round → Round
  forced true bs s next =
      err (record { reason = apply_failed; taken = bs; reached = s; leftover = none })
  forced false bs s next = next

  abbrev pub then_rest : Round → (List Backup → D.State → Round) → Round
  then_rest (err x) rest = err x
  then_rest (ok (bs, s)) rest = rest bs s

  -- the loop over the sorted paths
  unfoldable pub change_all :
      Workspace → List (Bytes × PlannedFile) → ℕ → List Bytes → ℕ → List Backup → D.State → Round
  change_all ws planned fail_after [] applied bs s = ok (bs, s)
  change_all ws planned fail_after (rel ∷ paths) applied bs s =
      then_rest (change_one ws (plan_of rel planned) rel bs s) λ cs t.
        forced (is_forced fail_after (applied + 1)) cs t
          (change_all ws planned fail_after paths (applied + 1) cs t)

  -- one step of the roll back, whose failures the source passes over
  abbrev pub restore_text : FilePath → Option Bytes → D.State → D.State
  restore_text abs (some text) s = (D.write (D.mkdir_all s (dir_of abs)).1 (render abs) text).1
  restore_text abs none s = (D.remove s (render abs)).1

  abbrev pub restore : Backup → D.State → D.State
  restore b s = restore_text b.absolute b.saved s

  unfoldable pub rollback : List Backup → D.State → D.State
  rollback [] s = s
  rollback (b ∷ bs) s = rollback bs (restore b s)

  abbrev pub tidy : Option Bytes → D.State → D.State
  tidy none s = s
  tidy (some p) s = (D.remove s p).1

  abbrev pub settle : Round → Result Code (Unit {0}) × D.State
  settle (ok (bs, s)) = (ok tt, s)
  settle (err x) = (err x.reason, tidy x.leftover (rollback x.taken x.reached))

  -- the function that `ApplyChanges` gives to Mutate, behind its tests
  unfoldable pub change_planned :
      Workspace
      → List (Bytes × PlannedFile)
      → ℕ
      → List Bytes
      → D.State
      → Result Code (Unit {0}) × D.State
  unfolding rollback change_all
  change_planned ws planned fail_after paths s =
      settle (change_all ws planned fail_after paths 0 [] s)
