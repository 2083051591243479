-- ===== src/Workspace/Apply/Files/Success.antt =====
-- A change of the files that succeeds makes every planned file (local-agent/internal/workspace/apply.go).
use on_code.Prelude.{
  ℕ, ◌+◌, ◌≡◌, ◌∙◌, refl, sym, ap, Bool, true, false, Option, none, some, List, [], ◌∷◌, map, Bytes,
  codes, Result, ok, err, if◌then◌else◌, bytes_eq, bytes_eq→eq, inl, inr, Bool-cases, arith, length,
  length-append,
}
use mathlib.Core.List.{reverse_aux}
use on_code.Prelude.Paths.{FilePath, render}
use on_code.Protocol.Errors.{Code}
use on_code.Workspace.Disk.{Disk, IsLawful, Removal, removed, absent, refused}
use on_code.Workspace.Resolve.{Workspace, resolve_path}
use on_code.Workspace.Store.{PlannedFile, delete_file, write_file}
use on_code.Workspace.Apply.Files.Staged.{IsNoStage}
use on_code.Workspace.Apply.Files.{
  Backup, dir_of, staged_at, saved_of, plan_of, Outcome, after_unlink, after_rename, after_clear,
  after_stage, after_mkdir, place, change_to, Round, with_backups, backed_up, resolved, change_one,
  is_forced, forced, then_rest, change_all, change_planned,
}
use on_code.Workspace.Apply.Files.Rollback.{OutcomeOff, change_to-Off, saved_of_lem}

-- the text that a plan asks for
abbrev pub text_of : PlannedFile → Option Bytes
text_of delete_file = none
text_of (write_file text) = some text

-- What a path holds behind the changes of these paths: what the last one that was resolved to it
-- asks for.
abbrev pub planned_at :
    List (Bytes × PlannedFile) → Bytes → List Backup → Option Bytes → Option Bytes
planned_at planned q [] v = v
planned_at planned q (b ∷ bs) v =
    if bytes_eq q (render b.absolute)
    then text_of (plan_of b.relative planned)
    else planned_at planned q bs v

staged-ne : (p : Bytes) → bytes_eq (staged_at p) p ≡ false
staged-ne p = elim (Bool-cases (bytes_eq (staged_at p) p)) [
  | inr other ↦ other
  | inl same ↦
      let e : length (staged_at p) ≡ length p = ap length (bytes_eq→eq (staged_at p) p same) in
      absurd (omega (arith, length-append p (codes ".oncode-tmp")))
]

module _ (D : Disk) (law : IsLawful D) where
  abbrev Holds : Bytes → Option Bytes → Outcome D → Type 0
  Holds p v (ok t) = law.file t p ≡ v
  Holds p v (err x) = Unit

  after_unlink-Holds :
      (p : Bytes) (bs : List Backup) (s : D.State) (m : Removal × D.State)
      → D.remove s p ≡ m
      → Holds p none (after_unlink D bs m)
  after_unlink-Holds p bs s (removed, t) e =
      rw (ap (λ m. law.file m.1 p) e) at (law.file-removed s p (ap (λ m. m.0) e))
  after_unlink-Holds p bs s (absent, t) e = tt
  after_unlink-Holds p bs s (refused, t) e = tt

  after_rename-Holds :
      (p : Bytes) (v : Option Bytes) (bs : List Backup) (s : D.State) (m : Bool × D.State)
      → D.rename s (staged_at p) p ≡ m
      → law.file s (staged_at p) ≡ v
      → Holds p v (after_rename D p bs m)
  after_rename-Holds p v bs s (true, t) e h =
      let moved : law.file (D.rename s (staged_at p) p).1 p ≡ law.file s (staged_at p) =
        law.file-renamed s (staged_at p) p (ap (λ m. m.0) e) in
      ap (λ m. law.file m.1 p) (sym e) ∙ moved ∙ h
  after_rename-Holds p v bs s (false, t) e h = tt

  after_clear-Holds :
      (p : Bytes) (v : Option Bytes) (bs : List Backup) (s : D.State) (m : Removal × D.State)
      → law.file m.1 (staged_at p) ≡ v
      → Holds p v (after_clear D p bs m)
  after_clear-Holds p v bs s (refused, t) h = tt
  after_clear-Holds p v bs s (removed, t) h =
      after_rename-Holds p v bs t (D.rename t (staged_at p) p) refl h
  after_clear-Holds p v bs s (absent, t) h =
      after_rename-Holds p v bs t (D.rename t (staged_at p) p) refl h

  after_stage-Holds :
      (p text : Bytes) (bs : List Backup) (s : D.State) (m : Bool × D.State)
      → D.write s (staged_at p) text ≡ m
      → Holds p (some text) (after_stage D p bs m)
  after_stage-Holds p text bs s (false, t) e = tt
  after_stage-Holds p text bs s (true, t) e =
      let written : law.file (D.write s (staged_at p) text).1 (staged_at p) ≡ some text =
        law.file-written s (staged_at p) text (ap (λ m. m.0) e) in
      after_clear-Holds p (some text) bs t (D.remove t p) (
        law.file-remove t p (staged_at p) (staged-ne p)
        ∙ ap (λ m. law.file m.1 (staged_at p)) (sym e)
        ∙ written)

  after_mkdir-Holds :
      (p text : Bytes) (bs : List Backup) (m : Bool × D.State)
      → Holds p (some text) (after_mkdir D p text bs m)
  after_mkdir-Holds p text bs (false, t) = tt
  after_mkdir-Holds p text bs (true, t) =
      after_stage-Holds p text bs t (D.write t (staged_at p) text) refl

  change_to-Holds :
      (plan : PlannedFile) (abs : FilePath) (saved : Option Bytes) (bs : List Backup) (s : D.State)
      → law.file s (render abs) ≡ saved
      → Holds (render abs) (text_of plan) (change_to D plan abs saved bs s)
  unfolding place
  change_to-Holds delete_file abs none bs s e = e
  change_to-Holds delete_file abs (some text) bs s e =
      after_unlink-Holds (render abs) bs s (D.remove s (render abs)) refl
  change_to-Holds (write_file text) abs saved bs s e =
      after_mkdir-Holds (render abs) text bs (D.mkdir_all s (dir_of abs))

  abbrev relatives : List Backup → List Bytes
  relatives = map λ b. b.relative

  module _ (planned : List (Bytes × PlannedFile)) (q : Bytes) (away : IsNoStage q)
      (v : Option Bytes) where
    abbrev Makes : List Backup → D.State → Type 0
    Makes bs s = law.file s q ≡ planned_at planned q bs v

    -- a round that went on, with the paths that it has changed, the last one first
    abbrev RoundMakes : List Bytes → Round D → Type 0
    RoundMakes names (ok (bs, s)) = Makes bs s × (relatives bs ≡ names)
    RoundMakes names (err x) = Unit

    with_backups-Makes :
        (rel : Bytes) (abs : FilePath) (saved : Option Bytes) (bs cs : List Backup) (s : D.State)
        (o : Outcome D)
        → Makes bs s
        → Holds (render abs) (text_of (plan_of rel planned)) o
        → OutcomeOff D law q away (render abs) s cs o
        → RoundMakes
            (rel ∷ relatives bs)
            (with_backups D (record { relative = rel; absolute = abs; saved = saved } ∷ bs) o)
    with_backups-Makes rel abs saved bs cs s (err x) h now off = tt
    with_backups-Makes rel abs saved bs cs s (ok t) h now off = (made, refl)
      where
        made : law.file t q ≡ (
            if bytes_eq q (render abs)
            then text_of (plan_of rel planned)
            else planned_at planned q bs v)
        made = elim (Bool-cases (bytes_eq q (render abs))) [
          | inl same ↦ rw same (ap (law.file t) (bytes_eq→eq q (render abs) same) ∙ now)
          | inr other ↦ rw other (off other ∙ h)
        ]

    backed_up-Makes :
        (rel : Bytes) (abs : FilePath) (r : Result Code (Option Bytes)) (bs : List Backup)
        (s : D.State)
        → saved_of (D.lstat s (render abs)) (D.read s (render abs)) ≡ r
        → Makes bs s
        → RoundMakes (rel ∷ relatives bs) (backed_up D (plan_of rel planned) rel abs r bs s)
    backed_up-Makes rel abs (err e) bs s now h = tt
    backed_up-Makes rel abs (ok saved) bs s now h =
        let taken : List Backup = record { relative = rel; absolute = abs; saved = saved } ∷ bs in
        let before = saved_of_lem D law s (render abs) saved _ _ refl refl now in
        with_backups-Makes rel abs saved bs taken s
          (change_to D (plan_of rel planned) abs saved taken s) h
          (change_to-Holds (plan_of rel planned) abs saved taken s before)
          (change_to-Off D law q away (plan_of rel planned) abs saved taken s)

    resolved-Makes :
        (rel : Bytes) (r : Result Code FilePath) (bs : List Backup) (s : D.State)
        → Makes bs s
        → RoundMakes (rel ∷ relatives bs) (resolved D (plan_of rel planned) rel r bs s)
    resolved-Makes rel (err e) bs s h = tt
    resolved-Makes rel (ok abs) bs s h = backed_up-Makes rel abs _ bs s refl h

    forced-Makes :
        (names : List Bytes) (b : Bool) (bs : List Backup) (s : D.State) (next : Round D)
        → RoundMakes names next
        → RoundMakes names (forced D b bs s next)
    forced-Makes names true bs s next g = tt
    forced-Makes names false bs s next g = g

    then_rest-Makes :
        (first names : List Bytes) (m : Round D) (rest : List Backup → D.State → Round D)
        → RoundMakes first m
        → ((bs : List Backup) (s : D.State)
            → Makes bs s
            → relatives bs ≡ first
            → RoundMakes names (rest bs s))
        → RoundMakes names (then_rest D m rest)
    then_rest-Makes first names (err x) rest h g = tt
    then_rest-Makes first names (ok (bs, s)) rest h g = g bs s h.0 h.1

    change_all-Makes :
        (ws : Workspace) (fail_after : ℕ) (paths : List Bytes) (applied : ℕ) (bs : List Backup)
        (s : D.State)
        → Makes bs s
        → RoundMakes
            (reverse_aux paths (relatives bs))
            (change_all D ws planned fail_after paths applied bs s)
    unfolding change_all change_one
    change_all-Makes ws fail_after [] applied bs s h = (h, refl)
    change_all-Makes ws fail_after (rel ∷ paths) applied bs s h =
        then_rest-Makes (rel ∷ relatives bs) (reverse_aux paths (rel ∷ relatives bs))
          (change_one D ws (plan_of rel planned) rel bs s) _
          (resolved-Makes rel (resolve_path D ws s rel) bs s h)
          (λ cs t g names.
            forced-Makes _ (is_forced D fail_after (applied + 1)) cs t _
              (rw names at (change_all-Makes ws fail_after paths (applied + 1) cs t g)))

  -- A change of the files that succeeds has changed all of the paths, in their order. Then every path holds
  -- what the plan asks for, the last plan where several paths lead to one file, and all other files
  -- hold what they held. Only paths of staged files are left out.
  pub change_planned-makes :
      (ws : Workspace) (planned : List (Bytes × PlannedFile)) (fail_after : ℕ) (paths : List Bytes)
      (s t : D.State) (bs : List Backup) (q : Bytes)
      → change_all D ws planned fail_after paths 0 [] s ≡ ok (bs, t)
      → IsNoStage q
      → (relatives bs ≡ reverse_aux paths [])
        × ((change_planned D ws planned fail_after paths s).0 ≡ ok tt)
        × (law.file (change_planned D ws planned fail_after paths s).1 q
            ≡ planned_at planned q bs (law.file s q))
  unfolding change_planned
  change_planned-makes ws planned fail_after paths s t bs q e away =
      let makes : RoundMakes planned q away (law.file s q) (reverse_aux paths []) (ok (bs, t)) =
        rw e at (change_all-Makes planned q away (law.file s q) ws fail_after paths 0 [] s refl) in
      rw e (makes.1, refl, makes.0)
