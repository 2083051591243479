-- ===== src/Workspace/Resolve.antt =====
-- local-agent/internal/workspace/path.go and the records of workspace.go: from a path in a request to
-- the path of a file below the root of a workspace.
pub mod Root
pub mod Links
use on_code.Prelude.{
  ℕ, ◌≡◌, ◌∙◌, refl, sym, ap, Bool, true, false, not, ◌&&◌, ◌||◌, Option, none, some, List, [], ◌∷◌,
  ◌++◌, reverse, Bytes, Result, ok, err, ◌>>=◌, ◌>>◌, ensure, >>=-eq-ok, ensure-eq-ok, arith, All,
  if◌then◌else◌, inl, inr, ◌↔◌, Bool-cases, Result-cases, is_empty,
}
use on_code.Prelude.Space.{trim_space}
use on_code.Prelude.Paths.{
  FilePath, clean, join, render, rel, goes_up, IsPlain, starts_with_slash, clean-IsPlain,
  clean-rooted, join-IsPlain, join-plain, rel-append, rel_sound,
}
use on_code.Protocol.Errors.{Code, invalid_path, path_outside_workspace, symlink_escape}
use on_code.Workspace.Disk.{
  Disk, IsLawful, Stat, found, missing, unknown, Kind, regular, directory, symlink, Info,
}

pub record Workspace : Type 0 where
  pub workspace_id : Bytes
  pub project_id : Bytes
  pub root : FilePath
  pub revision : ℕ

-- `withinRoot` on two clean absolute paths; a text is ".." or starts with "../" where its first
-- element is "..".
unfoldable pub within_root : FilePath → FilePath → Bool
within_root root candidate = not (goes_up (rel root.elements candidate.elements))

abbrev pub is_link : Kind → Bool
is_link symlink = true
is_link _ = false

abbrev pub has_none : List Bytes → Bool
has_none [] = true
has_none (e ∷ es) = false

-- the absolute path whose elements are held backwards
abbrev pub at_back : List Bytes → FilePath
at_back back = record { rooted = true; elements = reverse back }

-- the path that an existing prefix is resolved to, with what is missing behind it
pub record Prefix : Type 0 where
  pub back : List Bytes
  pub rest : List Bytes
  pub linked : Bool

abbrev pub link_error : Bool → Code
link_error true = symlink_escape
link_error false = path_outside_workspace

module _ (D : Disk) where
  -- The loop of `resolveExisting`: from a path up to the first one that exists.
  unfoldable pub find_prefix : D.State → List Bytes → List Bytes → Result Code Prefix
  find_prefix s [] rest = elim (D.lstat s (render (at_back []))) [
    | found i ↦ ok (record { back = []; rest = rest; linked = is_link i.kind })
    | missing ↦ err invalid_path
    | unknown ↦ err invalid_path
  ]
  find_prefix s (e ∷ back) rest = elim (D.lstat s (render (at_back (e ∷ back)))) [
    | found i ↦ ok (record { back = e ∷ back; rest = rest; linked = is_link i.kind })
    | missing ↦ find_prefix s back (e ∷ rest)
    | unknown ↦ err invalid_path
  ]

  -- `pathHadSymlink`
  unfoldable pub path_had_symlink : D.State → List Bytes → Bool
  path_had_symlink s [] = elim (D.lstat s (render (at_back []))) [
    | found i ↦ is_link i.kind
    | missing ↦ false
    | unknown ↦ false
  ]
  path_had_symlink s (e ∷ back) = elim (D.lstat s (render (at_back (e ∷ back)))) [
    | found i ↦ let above = path_had_symlink s back in if is_link i.kind then true else above
    | missing ↦ false
    | unknown ↦ false
  ]

  abbrev pub evaluated : Option Bytes → Result Code FilePath
  evaluated none = err invalid_path
  evaluated (some text) = ok (clean text)

  -- `resolveExisting`: the path, and whether a link was met
  unfoldable pub resolve_existing : D.State → FilePath → Result Code (FilePath × Bool)
  unfolding find_prefix path_had_symlink
  resolve_existing s path = do
    prefix ← find_prefix s (reverse path.elements) []
    target ← evaluated (D.eval_symlinks s (render (at_back prefix.back)))
    ok (join target prefix.rest, prefix.linked || path_had_symlink s prefix.back)

  -- the tests of `ResolvePath` on the text of a path
  unfoldable pub check_text : Bytes → Result Code FilePath
  check_text text = do
    let path = trim_space text
    ensure (not (is_empty path)) invalid_path
    ensure (not (starts_with_slash path)) path_outside_workspace
    let cleaned = clean path
    ensure (not (has_none cleaned.elements)) invalid_path
    ensure (not (goes_up cleaned.elements)) path_outside_workspace
    ok cleaned

  -- `ResolvePath`. No path has a volume name on Unix, and `filepath.Abs` keeps an absolute path.
  unfoldable pub resolve_path : Workspace → D.State → Bytes → Result Code FilePath
  unfolding check_text resolve_existing
  resolve_path ws s text = do
    cleaned ← check_text text
    let whole = join ws.root cleaned.elements
    ensure (within_root ws.root whole) path_outside_workspace
    resolved ← resolve_existing s whole
    ensure (within_root ws.root resolved.0) (link_error resolved.1)
    ok resolved.0
