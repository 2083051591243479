-- ===== src/Workspace/Hits.antt =====
-- The options and the matches of a search, and the lines of a file
-- (local-agent/internal/workspace/search.go).
use on_code.Prelude.{
  ℕ, Bool, true, false, ◌&&◌, ◌||◌, Option, none, some, List, [], ◌∷◌, ◌++◌, Bytes, codes, Result,
  ok, err, leb, ◌==◌, if◌then◌else◌, is_empty, bytes_eq, has_prefix, length,
}
use on_code.Protocol.Errors.{Code, invalid_argument}
use on_code.Workspace.Disk.{Stat, found, missing, unknown, Info, Read, contents, gone, unreadable}

-- SearchMode; `no_mode` is the empty text
pub data Mode : Type 0 where
  no_mode all_modes by_name by_path by_content : Mode
  other_mode : Bytes → Mode

pub data MatchKind : Type 0 where
  in_name in_path in_content : MatchKind

pub record Match : Type 0 where
  pub path : Bytes
  pub kind : MatchKind
  pub line : ℕ
  pub preview : Bytes

-- SearchOptions. A limit that is not positive is 0; `exclude` is none for a nil list.
pub record Options : Type 0 where
  pub query : Bytes
  pub mode : Mode
  pub exclude : Option (List Bytes)
  pub max_results : ℕ
  pub max_bytes : ℕ
  pub max_scan : ℕ

-- SearchResult, without the query and the mode that it repeats
pub record Hits : Type 0 where
  pub matches : List Match
  pub truncated : Bool

mutual
  pub data Tree : Type 0 where
    file : Bytes → Tree
    folder : Bytes → Forest → Tree
    -- what is visited with an error
    broken : Bytes → Tree

  pub data Forest : Type 0 where
    leaf : Forest
    grow : Tree → Forest → Forest

abbrev pub same_kind : MatchKind → MatchKind → Bool
same_kind in_name in_name = true
same_kind in_path in_path = true
same_kind in_content in_content = true
same_kind _ _ = false

abbrev pub same_match : Match → Match → Bool
same_match a b = bytes_eq a.path b.path && same_kind a.kind b.kind && (a.line == b.line)

unfoldable pub known_match : Match → List Match → Bool
known_match m [] = false
known_match m (x ∷ xs) = same_match x m || known_match m xs

-- Whether the search goes on, with what it has.
abbrev pub Progress : Type 0
Progress = Bool × Hits

-- the method `add`
unfoldable pub add : ℕ → Match → Hits → Progress
add max m r =
    if known_match m r.matches
    then (true, r)
    else if leb max (length r.matches)
    then (false, record r { truncated = true })
    else (true, record r { matches = r.matches ++ m ∷ [] })

abbrev pub and_then : Progress → (Hits → Progress) → Progress
and_then (false, r) next = (false, r)
and_then (true, r) next = next r

abbrev pub add_if_match : ℕ → Bool → Match → Hits → Progress
add_if_match max true m r = add max m r
add_if_match max false m r = (true, r)

-- `strings.Contains(s, q)`
unfoldable pub contains : Bytes → Bytes → Bool
contains [] q = is_empty q
contains (c ∷ s) q = has_prefix (c ∷ s) q || contains s q

abbrev pub drop_return : Bytes → Bytes
drop_return [] = []
drop_return (c ∷ []) = if c == b'\r' then [] else c ∷ []
drop_return (c ∷ d ∷ s) = c ∷ drop_return (d ∷ s)

-- The lines of a bufio.Scanner: nothing stands behind a final newline, and a line that fills its buffer of
-- 1 MiB ends the scan.
abbrev pub scan_lines : List Bytes → List Bytes
scan_lines [] = []
scan_lines (l ∷ []) = if is_empty l || leb 1048576 (length l) then [] else drop_return l ∷ []
scan_lines (l ∷ k ∷ ls) =
    let rest = scan_lines (k ∷ ls) in if leb 1048576 (length l) then [] else drop_return l ∷ rest

abbrev pub text_of : Read → Option Bytes
text_of (contents text) = some text
text_of gone = none
text_of unreadable = none

abbrev pub info_at : Stat → Option Info
info_at (found i) = some i
info_at missing = none
info_at unknown = none

abbrev pub has_zero : Option ℕ → Bool
has_zero none = false
has_zero (some i) = true

abbrev pub mode_of : Mode → Result Code Mode
mode_of no_mode = ok all_modes
mode_of (other_mode t) = err invalid_argument
mode_of m = ok m

abbrev pub wants_name : Mode → Bool
wants_name all_modes = true
wants_name by_name = true
wants_name _ = false

abbrev pub wants_path : Mode → Bool
wants_path all_modes = true
wants_path by_path = true
wants_path _ = false

abbrev pub wants_content : Mode → Bool
wants_content all_modes = true
wants_content by_content = true
wants_content _ = false

abbrev pub last_of : List Bytes → Bytes
last_of [] = codes "/"
last_of (e ∷ []) = e
last_of (e ∷ f ∷ es) = last_of (f ∷ es)

abbrev pub exclude_of : Option (List Bytes) → List Bytes
exclude_of none =
    codes ".git" ∷ codes "target" ∷ codes "node_modules" ∷ codes "dist" ∷ codes "build" ∷ []
exclude_of (some dirs) = dirs

abbrev pub or_default : ℕ → ℕ → ℕ
or_default n d = if n == 0 then d else n

abbrev pub is_ok : {A : Type 0} → Result Code A → Bool
is_ok (ok a) = true
is_ok (err e) = false
