-- ===== src/Workspace/Search/Reference.antt =====
-- A search against all matches that there are (local-agent/internal/workspace/search.go).
use on_code.Prelude.{ℕ, suc, ◌≡◌, ◌∙◌, refl, Bool, true, false, ◌&&◌, List, [], ◌∷◌, ◌++◌, Bytes}
use on_code.Prelude.Paths.{FilePath}
use on_code.Prelude.Space.{trim_space}
use on_code.Workspace.Disk.{Disk}
use on_code.Workspace.Resolve.{Workspace, resolve_path}
use on_code.Workspace.Hits.{
  Mode, Match, in_name, in_path, Options, Hits, Tree, file, folder, broken, Forest, leaf, grow,
  Progress, add, add_if_match, contains, wants_name, wants_path, wants_content, last_of, exclude_of,
  is_ok,
}
use on_code.Workspace.Search.{
  file_lines, line_match, add_lines, named_match, add_content, visit_resolved, path_text,
  visit_file, is_excluded, skips, enter, walk_tree, walk_forest,
}
use on_code.Workspace.Search.Limited.{add_all, joined, and_then_unit, uncut_lem, add_all_open}

module _ (D : Disk) (lower : Bytes → Bytes) (ws : Workspace) (s : D.State) (o : Options) where
  -- All matches, whatever the limit is: those of a line, of a file, and of what a folder holds.
  abbrev pub when : Bool → Match → List Match
  when true m = m ∷ []
  when false m = []

  abbrev pub line_matches : Bytes → Bytes → ℕ → List Bytes → List Match
  line_matches q path n [] = []
  line_matches q path n (l ∷ ls) =
      when (contains l q) (line_match D lower ws s o path n l) ++ line_matches q path (suc n) ls

  abbrev pub content_matches : Bool → Bytes → FilePath → Bytes → List Match
  content_matches true q abs path = line_matches q path 1 (file_lines D lower ws s o abs)
  content_matches false q abs path = []

  abbrev pub file_matches : Bool → Mode → Bytes → FilePath → Bytes → Bytes → List Match
  file_matches false mode q abs name path = []
  file_matches true mode q abs name path =
      when (wants_name mode && contains (lower name) (lower q))
        (named_match D lower ws s o path in_name)
      ++ (when (wants_path mode && contains (lower path) (lower q))
            (named_match D lower ws s o path in_path)
          ++ content_matches (wants_content mode) q abs path)

  abbrev pub matches_at : Mode → Bytes → List Bytes → List Match
  matches_at mode q at =
      let path = path_text D lower ws s o at in
      file_matches (is_ok (resolve_path D ws s path)) mode q
        (record { rooted = true; elements = at }) (last_of at) path

  abbrev pub unless : Bool → List Match → List Match
  unless true ms = []
  unless false ms = ms

  unfoldable mutual
    pub tree_matches : Mode → Bytes → List Bytes → Tree → List Match
    tree_matches mode q at (file name) = matches_at mode q (at ++ name ∷ [])
    tree_matches mode q at (broken name) = []
    tree_matches mode q at (folder name inner) =
        unless (skips D lower ws s o (at ++ name ∷ []))
          (forest_matches mode q (at ++ name ∷ []) inner)

    pub forest_matches : Mode → Bytes → List Bytes → Forest → List Match
    forest_matches mode q at leaf = []
    forest_matches mode q at (grow t ts) = tree_matches mode q at t ++ forest_matches mode q at ts

  abbrev max : ℕ
  max = o.max_results

  add_if_lem : (b : Bool) (m : Match) (r : Hits) → add_if_match max b m r ≡ add_all max (when b m) r
  unfolding add_all
  add_if_lem true m r = and_then_unit (add max m r)
  add_if_lem false m r = refl

  add_lines_lem :
      (q path : Bytes) (n : ℕ) (ls : List Bytes) (r : Hits)
      → add_lines D lower ws s o q path n ls r ≡ add_all max (line_matches q path n ls) r
  unfolding add_lines add_all
  add_lines_lem q path n [] r = refl
  add_lines_lem q path n (l ∷ ls) r =
      joined max (when (contains l q) (line_match D lower ws s o path n l))
        (line_matches q path (suc n) ls) _ _ r
        (add_if_lem (contains l q) (line_match D lower ws s o path n l) r)
        (λ t e. add_lines_lem q path (suc n) ls t)

  add_content_lem :
      (b : Bool) (q : Bytes) (abs : FilePath) (path : Bytes) (r : Hits)
      → add_content D lower ws s o b q abs path r ≡ add_all max (content_matches b q abs path) r
  unfolding add_all
  add_content_lem true q abs path r = add_lines_lem q path 1 (file_lines D lower ws s o abs) r
  add_content_lem false q abs path r = refl

  visit_resolved_lem :
      (b : Bool) (mode : Mode) (q : Bytes) (abs : FilePath) (name path : Bytes) (r : Hits)
      → visit_resolved D lower ws s o b mode q abs name path r
        ≡ add_all max (file_matches b mode q abs name path) r
  unfolding add_all
  visit_resolved_lem false mode q abs name path r = refl
  visit_resolved_lem true mode q abs name path r =
      joined max
        (when (wants_name mode && contains (lower name) (lower q))
          (named_match D lower ws s o path in_name))
        _ _ _ r
        (add_if_lem (wants_name mode && contains (lower name) (lower q))
          (named_match D lower ws s o path in_name) r)
        (λ t e.
          joined max
            (when (wants_path mode && contains (lower path) (lower q))
              (named_match D lower ws s o path in_path))
            _ _ _ t
            (add_if_lem (wants_path mode && contains (lower path) (lower q))
              (named_match D lower ws s o path in_path) t)
            (λ x e. add_content_lem (wants_content mode) q abs path x))

  visit_file_lem :
      (mode : Mode) (q : Bytes) (at : List Bytes) (r : Hits)
      → r.truncated ≡ false
      → visit_file D lower ws s o mode q at r ≡ add_all max (matches_at mode q at) r
  unfolding visit_file
  visit_file_lem mode q at r uncut =
      uncut_lem r.truncated (false, r) _ uncut
      ∙ visit_resolved_lem (is_ok (resolve_path D ws s (path_text D lower ws s o at))) mode q _
          (last_of at) (path_text D lower ws s o at) r

  enter_lem :
      (b : Bool) (inner : Progress) (ms : List Match) (r : Hits)
      → inner ≡ add_all max ms r
      → enter D lower ws s o b inner r ≡ add_all max (unless b ms) r
  unfolding add_all
  enter_lem true inner ms r e = refl
  enter_lem false inner ms r e = e

  mutual
    unfolding walk_tree walk_forest tree_matches forest_matches add_all

    walk_tree_lem :
        (mode : Mode) (q : Bytes) (at : List Bytes) (t : Tree) (r : Hits)
        → r.truncated ≡ false
        → walk_tree D lower ws s o mode q at t r ≡ add_all max (tree_matches mode q at t) r
    walk_tree_lem mode q at (file name) r uncut = visit_file_lem mode q (at ++ name ∷ []) r uncut
    walk_tree_lem mode q at (broken name) r uncut = refl
    walk_tree_lem mode q at (folder name inner) r uncut =
        enter_lem (skips D lower ws s o (at ++ name ∷ []))
          (walk_forest D lower ws s o mode q (at ++ name ∷ []) inner r)
          (forest_matches mode q (at ++ name ∷ []) inner) r
          (walk_forest_lem mode q (at ++ name ∷ []) inner r uncut)

    walk_forest_lem :
        (mode : Mode) (q : Bytes) (at : List Bytes) (ts : Forest) (r : Hits)
        → r.truncated ≡ false
        → walk_forest D lower ws s o mode q at ts r ≡ add_all max (forest_matches mode q at ts) r
    walk_forest_lem mode q at leaf r uncut = refl
    walk_forest_lem mode q at (grow t ts) r uncut =
        joined max (tree_matches mode q at t) (forest_matches mode q at ts) _ _ r
          (walk_tree_lem mode q at t r uncut)
          (λ x e.
            walk_forest_lem mode q at ts x
              (add_all_open max (tree_matches mode q at t) r x e ∙ uncut))

  -- the matches in the workspace
  abbrev pub all_matches : Mode → Forest → List Match
  all_matches mode inside =
      unless (is_excluded D lower ws s o (last_of ws.root.elements) (exclude_of o.exclude))
        (forest_matches mode (trim_space o.query) ws.root.elements inside)
