-- ===== src/Workspace/Files.antt =====
-- Reading files of a workspace (local-agent/internal/workspace/read.go and read_files.go).
pub mod Counts
use on_code.Prelude.{
  ℕ, zero, suc, ◌+◌, Bool, true, false, not, ◌&&◌, ◌||◌, Option, none, some, List, [], ◌∷◌, ◌++◌,
  Bytes, codes, String, Result, ok, err, ◌>>=◌, ◌>>◌, ensure, ltb, ◌==◌, if◌then◌else◌, is_empty,
  length,
}
use on_code.Prelude.Paths.{FilePath, clean, render}
use on_code.Prelude.Utf8.{valid_utf8}
use on_code.Protocol.Errors.{
  Code, invalid_argument, invalid_path, workspace_file_not_found, internal_error, symlink_escape,
  file_too_large,
}
use on_code.Protocol.Ids.Hex
use on_code.Protocol.Messages.{Status, success, failed, partial}
use on_code.Workspace.Disk.{
  Disk, Stat, found, missing, unknown, Kind, regular, directory, symlink, Info, Read, contents,
  gone, unreadable,
}
use on_code.Workspace.Resolve.{Workspace, within_root, resolve_path, is_link}

pub record ReadFileResult : Type 0 where
  pub path : Bytes
  pub content : Bytes
  pub hash : Bytes
  pub size : ℕ

-- `filepath.ToSlash(filepath.Clean(path))`
abbrev pub clean_text : Bytes → Bytes
clean_text p = render (clean p)

-- `HashBytes`, from the digest of SHA-256
unfoldable pub hash_bytes : (Bytes → Bytes) → Bytes → Bytes
hash_bytes sha256 text = codes "sha256:" ++ Hex.encode (sha256 text)

abbrev pub is_directory : Kind → Bool
is_directory directory = true
is_directory _ = false

-- a size above a limit, where 0 is no limit
abbrev pub exceeds : ℕ → ℕ → Bool
exceeds max_bytes n = ltb 0 max_bytes && ltb max_bytes n

abbrev pub info_of : Stat → Result Code Info
info_of (found i) = ok i
info_of missing = err workspace_file_not_found
info_of unknown = err internal_error

abbrev pub text_read : Read → Result Code Bytes
text_read (contents text) = ok text
text_read gone = err workspace_file_not_found
text_read unreadable = err internal_error

abbrev pub target_of : Option Bytes → Result Code Bytes
target_of none = err invalid_path
target_of (some text) = ok text

-- ReadFileEntry; the code stands for its error
pub data Entry : Type 0 where
  read_entry : ReadFileResult → Entry
  failed_entry : Bytes → Code → Entry

pub record ReadFilesResult : Type 0 where
  pub files : List Entry
  pub total : ℕ
  pub successes : ℕ
  pub failures : ℕ

abbrev pub entry_of : Bytes → Result Code ReadFileResult → Entry
entry_of p (ok r) = read_entry r
entry_of p (err e) = failed_entry p e

abbrev pub add_entry : Entry → ReadFilesResult → ReadFilesResult
add_entry (read_entry r) out = record out {
  files = out.files ++ read_entry r ∷ [];
  successes = out.successes + 1;
}
add_entry (failed_entry p e) out = record out {
  files = out.files ++ failed_entry p e ∷ [];
  failures = out.failures + 1;
}

module _ (D : Disk) (sha256 : Bytes → Bytes) where
  -- a link leads to the file that is read, which must be below the root
  unfoldable pub follow : Workspace → D.State → Bytes → Info → Result Code (Bytes × Info)
  follow ws s p i = elim (is_link i.kind) [
    | false ↦ ok (p, i)
    | true ↦ do
      target ← target_of (D.eval_symlinks s p)
      ensure (within_root ws.root (clean target)) symlink_escape
      at ← info_of (D.stat s target)
      ok (target, at)
  ]

  -- `ReadTextFile`
  unfoldable pub read_text_file : Workspace → D.State → Bytes → ℕ → Result Code ReadFileResult
  unfolding follow
  read_text_file ws s rel max_bytes = do
    path ← resolve_path D ws s rel
    first ← info_of (D.lstat s (render path))
    file ← follow ws s (render path) first
    ensure (not (is_directory file.1.kind)) invalid_path
    ensure (not (exceeds max_bytes file.1.size)) file_too_large
    text ← text_read (D.read s file.0)
    ensure (not (exceeds max_bytes (length text))) file_too_large
    ensure (valid_utf8 text) invalid_argument
    ok (record {
      path = clean_text rel;
      content = text;
      hash = hash_bytes sha256 text;
      size = length text;
    })

  abbrev pub read_one : Workspace → D.State → Bytes → ℕ → Entry
  read_one ws s p max_bytes =
      entry_of p (if is_empty p then err invalid_argument else read_text_file ws s p max_bytes)

  unfoldable pub read_all : Workspace → D.State → ℕ → List Bytes → ReadFilesResult → ReadFilesResult
  read_all ws s max_bytes [] out = out
  read_all ws s max_bytes (p ∷ paths) out =
      read_all ws s max_bytes paths (add_entry (read_one ws s p max_bytes) out)

  -- `ReadTextFiles`
  unfoldable pub read_text_files :
      Workspace → D.State → List Bytes → ℕ → Result Code ReadFilesResult
  unfolding read_all
  read_text_files ws s [] max_bytes = err invalid_argument
  read_text_files ws s (p ∷ paths) max_bytes = ok (
      read_all ws s max_bytes (p ∷ paths)
        (record { files = []; total = length (p ∷ paths); successes = 0; failures = 0 }))

-- `OverallStatus`
unfoldable pub overall_status : ReadFilesResult → Status
overall_status r =
    if r.total == 0
    then failed
    else if r.failures == 0
    then success
    else if r.successes == 0
    then failed
    else partial
