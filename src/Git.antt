-- ===== src/Git.antt =====
-- local-agent/internal/gitops/git.go: the status of a work tree from the output of git, which is a parameter.
pub mod Porcelain
mod Tests
use on_code.Prelude.{
  ℕ, Bool, true, false, not, ◌&&◌, ◌||◌, Option, none, some, List, [], ◌∷◌, ◌++◌, Bytes, codes,
  Result, ok, err, ◌>>=◌, ◌>>◌, ensure, ◌==◌, if◌then◌else◌, is_empty, bytes_eq, has_prefix, split,
  drop,
}
use on_code.Prelude.Decimal.{ℤ, pos, negsuc}
use on_code.Prelude.Space.{trim_space}
use on_code.Protocol.Errors.{
  Code, git_not_available, internal_error, process_timeout, process_cancelled,
}
use on_code.Prelude.Paths.{FilePath, join, render}
use on_code.Process
use on_code.Workspace.Disk.{Disk, Stat, found, missing, unknown}
use on_code.Workspace.Files.{clean_text}
use on_code.Workspace.Conflicts.{listed}

-- the three lists of a StatusResult
pub record Lists : Type 0 where
  pub changed : List Bytes
  pub staged : List Bytes
  pub untracked : List Bytes

pub record Status : Type 0 where
  pub branch : Bytes
  pub head : Bytes
  pub lists : Lists

-- the text behind the first " -> "
unfoldable pub behind_arrow : Bytes → Option Bytes
behind_arrow [] = none
behind_arrow (c ∷ s) =
    let later = behind_arrow s in
    if has_prefix (c ∷ s) (codes " -> ") then some (drop 4 (c ∷ s)) else later

abbrev pub drop_space : Bytes → Bytes
drop_space [] = []
drop_space (c ∷ s) = if c == b' ' then s else c ∷ s

abbrev pub or_whole : Bytes → Option Bytes → Bytes
or_whole p none = p
or_whole p (some q) = q

unfoldable pub path_of : Bytes → Bytes
unfolding behind_arrow
path_of part = let p = trim_space (drop_space part) in or_whole p (behind_arrow p)

-- a path that is listed once
unfoldable pub note : Bytes → List Bytes → List Bytes
note p ps = if listed p ps then ps else ps ++ p ∷ []

abbrev pub note_if : Bool → Bytes → List Bytes → List Bytes
note_if true p ps = note p ps
note_if false p ps = ps

-- a letter that says that something changed
abbrev pub is_mark : ℕ → Bool
is_mark c = not (c == b' ') && not (c == b'?')

abbrev pub is_untracked : ℕ → ℕ → Bool
is_untracked x y = (x == b'?') && (y == b'?')

abbrev pub add_path : ℕ → ℕ → Bytes → Lists → Lists
add_path x y p l =
    if is_untracked x y then record l { untracked = note p l.untracked } else record l {
      changed = note_if (is_mark y) p l.changed;
      staged = note_if (is_mark x) p l.staged;
    }

-- a round of the loop of `parsePorcelain`: a line of less than three bytes is passed over
unfoldable pub add_line : Bytes → Lists → Lists
unfolding path_of note
add_line (x ∷ y ∷ c ∷ part) l = add_path x y (path_of (c ∷ part)) l
add_line _ l = l

unfoldable pub add_lines : List Bytes → Lists → Lists
add_lines [] l = l
add_lines (line ∷ lines) l = add_lines lines (add_line line l)

abbrev pub no_lists : Lists
no_lists = record { changed = []; staged = []; untracked = [] }

-- `parsePorcelain`
unfoldable pub parse_porcelain : Bytes → Lists
unfolding add_lines add_line
parse_porcelain out = add_lines (split b'\n' out) no_lists

abbrev pub is_success : ℤ → Bool
is_success (pos n) = n == 0
is_success (negsuc n) = false

-- `gitOut`, from the result of the run of git
abbrev pub output_of : Option Process.Result → Result Code Bytes
output_of none = err internal_error
output_of (some r) = do
  ensure (not r.timed_out) process_timeout
  ensure (not r.was_cancelled) process_cancelled
  ensure (is_success r.exit_code) git_not_available
  ok r.stdout

abbrev pub or_no_text : Result Code Bytes → Bytes
or_no_text (ok s) = s
or_no_text (err e) = []

-- `Status` in a folder that has a repository
unfoldable pub status : (List Bytes → Option Process.Result) → Bool → Result Code Status
unfolding parse_porcelain
status git available = do
  ensure available git_not_available
  branch ← output_of (git (codes "rev-parse" ∷ codes "--abbrev-ref" ∷ codes "HEAD" ∷ []))
  let head = or_no_text (output_of (git (codes "rev-parse" ∷ codes "HEAD" ∷ [])))
  out ← output_of (git (codes "status" ∷ codes "--porcelain=v1" ∷ codes "-uall" ∷ []))
  ok (record { branch = trim_space branch; head = trim_space head; lists = parse_porcelain out })

-- DiffResult
pub record DiffResult : Type 0 where
  pub diff : Bytes
  pub of_staged : Bool
  pub diff_path : Bytes

abbrev pub staged_flag : Bool → List Bytes
staged_flag true = codes "--cached" ∷ []
staged_flag false = []

abbrev pub path_flags : Bytes → List Bytes
path_flags [] = []
path_flags (c ∷ p) = codes "--" ∷ (c ∷ p) ∷ []

abbrev pub clean_or_empty : Bytes → Bytes
clean_or_empty [] = []
clean_or_empty (c ∷ p) = clean_text (c ∷ p)

-- `Diff`; a clean path is not empty
unfoldable pub diff_of :
    (List Bytes → Option Process.Result) → Bool → Bytes → Bool → Result Code DiffResult
diff_of git available path staged = do
  ensure available git_not_available
  let cleaned = clean_or_empty path
  out ←
      output_of
        (git (codes "diff" ∷ codes "--no-color" ∷ (staged_flag staged ++ path_flags cleaned)))
  ok (record { diff = out; of_staged = staged; diff_path = cleaned })

abbrev pub is_there : Stat → Bool
is_there (found i) = true
is_there missing = false
is_there unknown = false

-- `EnsureAvailable`: git is found, and the root has a .git
unfoldable pub is_available : (D : Disk) → D.State → Bool → FilePath → Bool
is_available D s found_git root =
    found_git && is_there (D.stat s (render (join root (codes ".git" ∷ []))))
