-- ===== src/Workspace/Disk.antt =====
-- The operating system as local-agent/internal/workspace/ calls it (packages os and path/filepath), over
-- an unknown state: a parameter of the model. Paths are the canonical texts that ResolvePath returns, so
-- that a path has one text and a file one path.
pub mod Memory
use on_code.Prelude.Paths.{starts_with_slash}
use on_code.Prelude.{ℕ, ◌≡◌, Bool, true, false, Option, none, some, Bytes, bytes_eq}

pub data Kind : Type 0 where
  regular directory symlink : Kind

pub record Info : Type 0 where
  pub kind : Kind
  pub size : ℕ

-- What os.Lstat and os.Stat answer: `missing` is an error that os.IsNotExist knows, `unknown` another one.
pub data Stat : Type 0 where
  found : Info → Stat
  missing unknown : Stat

-- What reading a file answers.
pub data Read : Type 0 where
  contents : Bytes → Read
  gone unreadable : Read

pub data Removal : Type 0 where
  removed absent refused : Removal

pub record Disk : Type 1 where
  pub State : Type 0
  pub lstat : State → Bytes → Stat
  -- `os.Stat`, which follows links
  pub stat : State → Bytes → Stat
  pub eval_symlinks : State → Bytes → Option Bytes
  pub read : State → Bytes → Read
  -- `os.WriteFile`; the mode is not modelled
  pub write : State → Bytes → Bytes → Bool × State
  pub remove : State → Bytes → Removal × State
  pub rename : State → Bytes → Bytes → Bool × State
  pub mkdir_all : State → Bytes → Bool × State

-- does Lstat say that there is a regular file?
abbrev pub is_regular : Stat → Bool
is_regular (found i) = elim i.kind [ regular ↦ true | directory ↦ false | symlink ↦ false ]
is_regular _ = false

-- What the source relies on: `file` is the text of the regular file at a path.
pub record IsLawful (D : Disk) : Type 0 where
  pub file : D.State → Bytes → Option Bytes
  pub file-read :
      (s : D.State) (p text : Bytes)
      → is_regular (D.lstat s p) ≡ true
      → D.read s p ≡ contents text
      → file s p ≡ some text
  pub file-none : (s : D.State) (p : Bytes) → is_regular (D.lstat s p) ≡ false → file s p ≡ none
  pub file-written :
      (s : D.State) (p text : Bytes)
      → (D.write s p text).0 ≡ true
      → file (D.write s p text).1 p ≡ some text
  pub file-write :
      (s : D.State) (p text q : Bytes)
      → bytes_eq q p ≡ false
      → file (D.write s p text).1 q ≡ file s q
  pub file-removed :
      (s : D.State) (p : Bytes)
      → (D.remove s p).0 ≡ Removal.removed
      → file (D.remove s p).1 p ≡ none
  pub file-absent :
      (s : D.State) (p : Bytes) → (D.remove s p).0 ≡ Removal.absent → file (D.remove s p).1 p ≡ none
  pub file-kept :
      (s : D.State) (p : Bytes)
      → (D.remove s p).0 ≡ Removal.refused
      → file (D.remove s p).1 p ≡ file s p
  pub file-remove :
      (s : D.State) (p q : Bytes) → bytes_eq q p ≡ false → file (D.remove s p).1 q ≡ file s q
  pub file-renamed :
      (s : D.State) (p q : Bytes) → (D.rename s p q).0 ≡ true → file (D.rename s p q).1 q ≡ file s p
  pub file-rename :
      (s : D.State) (p q r : Bytes)
      → bytes_eq r p ≡ false
      → bytes_eq r q ≡ false
      → file (D.rename s p q).1 r ≡ file s r
  pub file-mkdir_all : (s : D.State) (p q : Bytes) → file (D.mkdir_all s p).1 q ≡ file s q
  pub eval_symlinks-absolute :
      (s : D.State) (p q : Bytes)
      → starts_with_slash p ≡ true
      → D.eval_symlinks s p ≡ some q
      → starts_with_slash q ≡ true
