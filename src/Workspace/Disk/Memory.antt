-- ===== src/Workspace/Disk/Memory.antt =====
-- A disk in memory, which shows that the laws of a disk can hold: files by their paths, and no links.
use on_code.Prelude.{
  ◌≡◌, refl, Bool, true, false, Option, none, some, List, [], ◌∷◌, Bytes, codes, arith,
  if◌then◌else◌, bytes_eq, bytes_eq_iff, bytes_eq_refl, length,
}
use on_code.Prelude.Paths.{starts_with_slash}
use on_code.Workspace.Disk.{
  Disk, IsLawful, Stat, found, missing, regular, directory, Read, contents, gone, Removal, removed,
  absent, is_regular,
}

abbrev pub Files : Type 0
Files = List (Bytes × Bytes)

unfoldable pub lookup : Bytes → Files → Option Bytes
lookup p [] = none
lookup p ((q, text) ∷ fs) = if bytes_eq q p then some text else lookup p fs

unfoldable pub insert : Bytes → Bytes → Files → Files
insert p text [] = (p, text) ∷ []
insert p text ((q, old) ∷ fs) = if bytes_eq q p then (p, text) ∷ fs else (q, old) ∷ insert p text fs

unfoldable pub erase : Bytes → Files → Files
erase p [] = []
erase p ((q, text) ∷ fs) = let rest = erase p fs in if bytes_eq q p then rest else (q, text) ∷ rest

abbrev pub stat_of : Bytes → Option Bytes → Stat
stat_of p (some text) = found (record { kind = regular; size = length text })
stat_of p none =
    if bytes_eq p (codes "/") then found (record { kind = directory; size = 0 }) else missing

abbrev pub read_of : Option Bytes → Read
read_of (some text) = contents text
read_of none = gone

abbrev pub remove_of : Bytes → Files → Option Bytes → Removal × Files
remove_of p fs (some text) = (removed, erase p fs)
remove_of p fs none = (absent, fs)

abbrev pub rename_of : Bytes → Bytes → Files → Option Bytes → Bool × Files
rename_of p q fs (some text) = (true, insert q text (erase p fs))
rename_of p q fs none = (false, fs)

abbrev pub memory : Disk
memory = record {
  State = Files;
  lstat = λ fs p. stat_of p (lookup p fs);
  stat = λ fs p. stat_of p (lookup p fs);
  eval_symlinks = λ fs p. some p;
  read = λ fs p. read_of (lookup p fs);
  write = λ fs p text. (true, insert p text fs);
  remove = λ fs p. remove_of p fs (lookup p fs);
  rename = λ fs p q. rename_of p q fs (lookup p fs);
  mkdir_all = λ fs p. (true, fs);
}

pub lookup-insert :
    (p q text : Bytes) (fs : Files)
    → lookup q (insert p text fs) ≡ (if bytes_eq p q then some text else lookup q fs)
unfolding lookup insert
lookup-insert p q text [] = refl
lookup-insert p q text ((r, old) ∷ fs) =
    ground (arith, lookup-insert p q text fs, bytes_eq_iff p q, bytes_eq_iff r p, bytes_eq_iff r q)

pub written_same : (p text : Bytes) (fs : Files) → lookup p (insert p text fs) ≡ some text
written_same p text fs = ground (arith, lookup-insert p p text fs, bytes_eq_refl p)

pub write_other :
    (p q text : Bytes) (fs : Files)
    → bytes_eq q p ≡ false
    → lookup q (insert p text fs) ≡ lookup q fs
write_other p q text fs e =
    ground (arith, lookup-insert p q text fs, bytes_eq_iff p q, bytes_eq_iff q p)

lookup-erase :
    (p q : Bytes) (fs : Files)
    → lookup q (erase p fs) ≡ (if bytes_eq p q then none else lookup q fs)
unfolding lookup erase
lookup-erase p q [] = ground arith
lookup-erase p q ((r, old) ∷ fs) =
    ground (arith, lookup-erase p q fs, bytes_eq_iff p q, bytes_eq_iff r p, bytes_eq_iff r q)

pub stat_none : (p : Bytes) (o : Option Bytes) → is_regular (stat_of p o) ≡ false → o ≡ none
stat_none p (some text) e = cc e
stat_none p none e = refl

pub read_some : (o : Option Bytes) (text : Bytes) → read_of o ≡ contents text → o ≡ some text
read_some (some old) text e = cc e
read_some none text e = cc e

pub removed_none :
    (p : Bytes) (fs : Files) (o : Option Bytes)
    → lookup p fs ≡ o
    → lookup p (remove_of p fs o).1 ≡ none
removed_none p fs (some text) e = ground (arith, lookup-erase p p fs, bytes_eq_refl p)
removed_none p fs none e = e

pub remove_other :
    (p q : Bytes) (fs : Files) (o : Option Bytes)
    → bytes_eq q p ≡ false
    → lookup q (remove_of p fs o).1 ≡ lookup q fs
remove_other p q fs (some text) e =
    ground (arith, lookup-erase p q fs, bytes_eq_iff p q, bytes_eq_iff q p)
remove_other p q fs none e = refl

pub renamed_same :
    (p q : Bytes) (fs : Files) (o : Option Bytes)
    → (rename_of p q fs o).0 ≡ true
    → lookup q (rename_of p q fs o).1 ≡ o
renamed_same p q fs (some text) e =
    ground (arith, lookup-insert q q text (erase p fs), bytes_eq_refl q)
renamed_same p q fs none e = cc e

pub rename_other :
    (p q r : Bytes) (fs : Files) (o : Option Bytes)
    → bytes_eq r p ≡ false
    → bytes_eq r q ≡ false
    → lookup r (rename_of p q fs o).1 ≡ lookup r fs
rename_other p q r fs (some text) e d = ground (
  arith,
  lookup-insert q r text (erase p fs),
  lookup-erase p r fs,
  bytes_eq_iff p r,
  bytes_eq_iff r p,
  bytes_eq_iff q r,
  bytes_eq_iff r q,
)
rename_other p q r fs none e d = refl

pub never_refused :
    (p : Bytes) (fs : Files) (o : Option Bytes)
    → (remove_of p fs o).0 ≡ Removal.refused
    → lookup p (remove_of p fs o).1 ≡ lookup p fs
never_refused p fs (some text) e = cc e
never_refused p fs none e = refl

pub same_path :
    (p q : Bytes) → starts_with_slash p ≡ true → some p ≡ some q → starts_with_slash q ≡ true
same_path p q a e = let same : p ≡ q = cc e in rw (← same) a

unfoldable pub lawful_memory : IsLawful memory
lawful_memory = record {
  file = λ fs p. lookup p fs;
  file-read = λ fs p text e r. read_some (lookup p fs) text r;
  file-none = λ fs p e. stat_none p (lookup p fs) e;
  file-written = λ fs p text e. written_same p text fs;
  file-write = λ fs p text q e. write_other p q text fs e;
  file-removed = λ fs p e. removed_none p fs (lookup p fs) refl;
  file-absent = λ fs p e. removed_none p fs (lookup p fs) refl;
  file-kept = λ fs p e. never_refused p fs (lookup p fs) e;
  file-remove = λ fs p q e. remove_other p q fs (lookup p fs) e;
  file-renamed = λ fs p q e. renamed_same p q fs (lookup p fs) e;
  file-rename = λ fs p q r e d. rename_other p q r fs (lookup p fs) e d;
  file-mkdir_all = λ fs p q. refl;
  eval_symlinks-absolute = λ fs p q a e. same_path p q a e;
}
