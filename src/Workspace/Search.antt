-- ===== src/Workspace/Search.antt =====
-- local-agent/internal/workspace/search.go: a search by names, paths and lines. What filepath.WalkDir
-- visits is a tree, in its order; strings.ToLower, which knows all of Unicode, is a parameter.
pub mod Limited
pub mod Reference
mod Tests
use on_code.Prelude.{
  ℕ, suc, ◌+◌, Bool, true, false, not, ◌&&◌, ◌||◌, Option, none, some, List, [], ◌∷◌, ◌++◌, Bytes,
  codes, Result, ok, err, ◌>>=◌, ◌>>◌, ensure, ltb, leb, ◌==◌, if◌then◌else◌, is_empty, bytes_eq,
  has_prefix, split, index_byte, length, take,
}
use on_code.Prelude.Paths.{FilePath, clean, render, rel}
use on_code.Prelude.Space.{trim_space}
use on_code.Prelude.Utf8.{valid_utf8}
use on_code.Protocol.Errors.{Code, invalid_argument}
use on_code.Workspace.Disk.{
  Disk, Stat, found, missing, unknown, Kind, Info, Read, contents, gone, unreadable,
}
use on_code.Workspace.Files.{is_directory, exceeds}
use on_code.Workspace.Resolve.{Workspace, within_root, is_link, resolve_path}
use on_code.Workspace.Hits.{
  Mode, MatchKind, Match, Options, Hits, Tree, Forest, same_kind, same_match, known_match, Progress,
  add, and_then, add_if_match, contains, drop_return, scan_lines, text_of, info_at, has_zero,
  mode_of, wants_name, wants_path, wants_content, last_of, exclude_of, or_default, is_ok, no_mode,
  all_modes, by_name, by_path, by_content, other_mode, in_name, in_path, in_content, file, folder,
  broken, leaf, grow,
}

module _ (D : Disk) (lower : Bytes → Bytes) (ws : Workspace) (s : D.State) (o : Options) where
  -- the file that is scanned: a link is followed below the root
  abbrev pub scan_linked : Bytes → Option Info → Option Bytes
  scan_linked path none = none
  scan_linked path (some i) =
      if is_directory i.kind
      then none
      else if exceeds o.max_bytes i.size
      then none
      else text_of (D.read s path)

  abbrev pub scan_target : Option Bytes → Option Bytes
  scan_target none = none
  scan_target (some target) =
      if within_root ws.root (clean target)
      then scan_linked target (info_at (D.stat s target))
      else none

  abbrev pub scan_found : Bytes → Option Info → Option Bytes
  scan_found path none = none
  scan_found path (some i) =
      if is_link i.kind then scan_target (D.eval_symlinks s path) else scan_linked path (some i)

  -- a text whose first 4096 bytes are valid and have no zero
  abbrev pub scan_text : Option Bytes → List Bytes
  scan_text none = []
  scan_text (some text) =
      let scanned = take o.max_scan text in
      let head = take 4096 scanned in
      if is_empty head || not (valid_utf8 head) || has_zero (index_byte 0 head)
      then []
      else scan_lines (split b'\n' scanned)

  -- the lines of `searchFileContent`
  unfoldable pub file_lines : FilePath → List Bytes
  file_lines abs = scan_text (scan_found (render abs) (info_at (D.lstat s (render abs))))

  abbrev pub line_match : Bytes → ℕ → Bytes → Match
  line_match path n text = record {
    path = path;
    kind = in_content;
    line = n;
    preview = take 200 text;
  }

  -- its loop over the lines
  unfoldable pub add_lines : Bytes → Bytes → ℕ → List Bytes → Hits → Progress
  add_lines q path n [] r = (true, r)
  add_lines q path n (l ∷ ls) r =
      and_then (add_if_match o.max_results (contains l q) (line_match path n l) r)
        (add_lines q path (suc n) ls)

  abbrev pub named_match : Bytes → MatchKind → Match
  named_match path kind = record { path = path; kind = kind; line = 0; preview = [] }

  abbrev pub add_content : Bool → Bytes → FilePath → Bytes → Hits → Progress
  add_content true q abs path r = add_lines q path 1 (file_lines abs) r
  add_content false q abs path r = (true, r)

  -- the visit of a file that the workspace resolves
  abbrev pub visit_resolved : Bool → Mode → Bytes → FilePath → Bytes → Bytes → Hits → Progress
  visit_resolved false mode q abs name path r = (true, r)
  visit_resolved true mode q abs name path r =
      and_then
        (add_if_match o.max_results (wants_name mode && contains (lower name) (lower q))
          (named_match path in_name) r)
        λ r1.
          and_then
            (add_if_match o.max_results (wants_path mode && contains (lower path) (lower q))
              (named_match path in_path) r1)
            λ r2. add_content (wants_content mode) q abs path r2

  abbrev pub path_text : List Bytes → Bytes
  path_text elements = render (record { rooted = false; elements = rel ws.root.elements elements })

  unfoldable pub visit_file : Mode → Bytes → List Bytes → Hits → Progress
  unfolding add_lines
  visit_file mode q elements r =
      let path = path_text elements in
      if r.truncated
      then (false, r)
      else visit_resolved (is_ok (resolve_path D ws s path)) mode q
          (record { rooted = true; elements = elements }) (last_of elements) path r

  abbrev pub is_excluded : Bytes → List Bytes → Bool
  is_excluded name [] = false
  is_excluded name (d ∷ dirs) = bytes_eq (lower d) (lower name) || is_excluded name dirs

  abbrev pub skips : List Bytes → Bool
  skips elements =
      is_excluded (last_of elements) (exclude_of o.exclude)
      || not (within_root ws.root (record { rooted = true; elements = elements }))

  abbrev pub enter : Bool → Progress → Hits → Progress
  enter true inner r = (true, r)
  enter false inner r = inner

  -- what `WalkDir` does with the function of `Search`, at the elements of a path
  unfoldable mutual
    pub walk_tree : Mode → Bytes → List Bytes → Tree → Hits → Progress
    walk_tree mode q at (file name) r = visit_file mode q (at ++ name ∷ []) r
    walk_tree mode q at (broken name) r = (true, r)
    walk_tree mode q at (folder name inner) r =
        enter (skips (at ++ name ∷ [])) (walk_forest mode q (at ++ name ∷ []) inner r) r

    pub walk_forest : Mode → Bytes → List Bytes → Forest → Hits → Progress
    walk_forest mode q at leaf r = (true, r)
    walk_forest mode q at (grow t ts) r =
        and_then (walk_tree mode q at t r) (walk_forest mode q at ts)

  abbrev pub none_yet : Hits
  none_yet = record { matches = []; truncated = false }

  -- `Search` on what stands in the root, which is visited as a directory too; its options have their
  -- defaults already
  unfoldable pub search : Forest → Result Code Hits
  unfolding walk_tree walk_forest
  search inside = do
    let q = trim_space o.query
    ensure (not (is_empty q)) invalid_argument
    mode ← mode_of o.mode
    ok
        (enter (is_excluded (last_of ws.root.elements) (exclude_of o.exclude))
          (walk_forest mode q ws.root.elements inside none_yet) none_yet).1

-- the defaults of the options
abbrev pub with_defaults : Options → Options
with_defaults o = record o {
  max_results = or_default o.max_results 200;
  max_scan = or_default o.max_scan 524288;
}

unfoldable pub search_workspace :
    (D : Disk) → (Bytes → Bytes) → Workspace → D.State → Options → Forest → Result Code Hits
unfolding search
search_workspace D lower ws s o inside = search D lower ws s (with_defaults o) inside
