-- ===== src/Git/Porcelain.antt =====
-- The status of git is read as it is printed (local-agent/internal/gitops/git.go).
use on_code.Prelude.{
  ℕ, ◌≡◌, ◌≢◌, ◌∙◌, refl, ap, Bool, true, none, List, [], ◌∷◌, ◌++◌, Bytes, All, Lacks, split, cut,
  arith, split_line, if◌then◌else◌, not, ◌||◌, ◌&&◌, ◌==◌, sym, append-nil, append_assoc, bytes_eq,
  bytes_eq→eq, inl, inr, Bool-cases,
}
use on_code.Workspace.Conflicts.{listed}
use on_code.Prelude.Space.{trim_space}
use on_code.Git.{
  Lists, behind_arrow, path_of, note, note_if, add_path, add_line, add_lines, no_lists,
  parse_porcelain,
}

-- What git says of a path: the letters of the index and of the work tree.
pub record Entry : Type 0 where
  pub index : ℕ
  pub tree : ℕ
  pub path : Bytes

-- An entry that git prints as it is: its path has no line end, no space at an end, and no arrow.
pub record IsPlainEntry (e : Entry) : Type 0 where
  pub index_stays : e.index ≢ 10
  pub tree_stays : e.tree ≢ 10
  pub one_line : Lacks 10 e.path
  pub trimmed : trim_space e.path ≡ e.path
  pub no_arrow : behind_arrow e.path ≡ none

abbrev pub entry_line : Entry → Bytes
entry_line e = e.index ∷ e.tree ∷ b' ' ∷ e.path

-- The output of git: a line for each entry.
unfoldable pub print : List Entry → Bytes
print [] = []
print (e ∷ es) = entry_line e ++ b'\n' ∷ print es

-- a list without an element, and one in which every element stands once, where it is first
abbrev pub without : Bytes → List Bytes → List Bytes
without p [] = []
without p (q ∷ qs) = let rest = without p qs in if bytes_eq q p then rest else q ∷ rest

abbrev pub distinct : List Bytes → List Bytes
distinct [] = []
distinct (p ∷ ps) = p ∷ without p (distinct ps)

-- The paths of the entries of a kind.
abbrev pub paths_where : (Entry → Bool) → List Entry → List Bytes
paths_where kind [] = []
paths_where kind (e ∷ es) = let rest = paths_where kind es in if kind e then e.path ∷ rest else rest

-- Two question marks are an untracked path; a letter that is neither a space nor a question mark is a change.
abbrev pub is_new : Entry → Bool
is_new e = (e.index == b'?') && (e.tree == b'?')

abbrev pub is_staged : Entry → Bool
is_staged e = not (e.index == b' ' || e.index == b'?')

abbrev pub is_changed : Entry → Bool
is_changed e = not (e.tree == b' ' || e.tree == b'?')

-- What a status lists of some entries.
abbrev pub expected : List Entry → Lists
expected es = record {
  changed = distinct (paths_where is_changed es);
  staged = distinct (paths_where is_staged es);
  untracked = distinct (paths_where is_new es);
}

-- a list without those of another
abbrev minus : List Bytes → List Bytes → List Bytes
minus ps [] = []
minus ps (q ∷ qs) = let rest = minus ps qs in if listed q ps then rest else q ∷ rest

listed-snoc :
    (q p : Bytes) (ps : List Bytes) → listed q (ps ++ p ∷ []) ≡ (listed q ps || bytes_eq q p)
unfolding listed
listed-snoc q p [] = ground arith
listed-snoc q p (r ∷ ps) = ground (arith, listed-snoc q p ps)

minus-snoc :
    (ps : List Bytes) (p : Bytes) (qs : List Bytes)
    → minus (ps ++ p ∷ []) qs ≡ minus ps (without p qs)
minus-snoc ps p [] = refl
minus-snoc ps p (q ∷ qs) = ground (arith, listed-snoc q p ps, minus-snoc ps p qs)

-- an element that is listed can as well be left out first
minus-without :
    (ps : List Bytes) (p : Bytes) (qs : List Bytes)
    → listed p ps ≡ true
    → minus ps (without p qs) ≡ minus ps qs
minus-without ps p [] h = refl
minus-without ps p (q ∷ qs) h = elim (Bool-cases (bytes_eq q p)) [
  | inl same ↦
      let gone : listed q ps ≡ true = ap (λ r. listed r ps) (bytes_eq→eq q p same) ∙ h in
      rw (same, gone) (minus-without ps p qs h)
  | inr other ↦ rw other (ground (arith, minus-without ps p qs h))
]

minus-nil : (qs : List Bytes) → minus [] qs ≡ qs
unfolding listed
minus-nil [] = refl
minus-nil (q ∷ qs) = ap (λ l. q ∷ l) (minus-nil qs)

-- The lists as the loop makes them, a path after the other.
abbrev noted : (Entry → Bool) → List Entry → List Bytes → List Bytes
noted kind [] ps = ps
noted kind (e ∷ es) ps = noted kind es (note_if (kind e) e.path ps)

note-minus :
    (p : Bytes) (ps qs : List Bytes)
    → note p ps ++ minus (note p ps) qs ≡ ps ++ minus ps (p ∷ without p qs)
unfolding note
note-minus p ps qs = elim (Bool-cases (listed p ps)) [
  | inl there ↦ rw there (ap (λ l. ps ++ l) (sym (minus-without ps p qs there)))
  | inr fresh ↦ rw fresh (
      append_assoc ps (p ∷ []) (minus (ps ++ p ∷ []) qs)
      ∙ ap (λ l. ps ++ p ∷ l) (minus-snoc ps p qs))
]

noted-distinct :
    (kind : Entry → Bool) (es : List Entry) (ps : List Bytes)
    → noted kind es ps ≡ ps ++ minus ps (distinct (paths_where kind es))
noted-distinct kind [] ps = sym (append-nil ps)
noted-distinct kind (e ∷ es) ps = elim (Bool-cases (kind e)) [
  | inl of_kind ↦ rw of_kind (
      noted-distinct kind es (note e.path ps)
      ∙ note-minus e.path ps (distinct (paths_where kind es)))
  | inr other ↦ rw other (noted-distinct kind es ps)
]

abbrev lists_of : List Entry → Lists → Lists
lists_of es l = record {
  changed = noted is_changed es l.changed;
  staged = noted is_staged es l.staged;
  untracked = noted is_new es l.untracked;
}

path_of_lem : (e : Entry) → IsPlainEntry e → path_of (b' ' ∷ e.path) ≡ e.path
unfolding path_of
path_of_lem e h = rw (h.trimmed, h.no_arrow) refl

by_kind_lem :
    (x y : ℕ) (p : Bytes) (l : Lists)
    → add_path x y p l ≡ record {
      changed = note_if (not (y == b' ' || y == b'?')) p l.changed;
      staged = note_if (not (x == b' ' || x == b'?')) p l.staged;
      untracked = note_if ((x == b'?') && (y == b'?')) p l.untracked;
    }
by_kind_lem x y p l = ground arith

add_line_lem :
    (e : Entry) (l : Lists)
    → IsPlainEntry e
    → add_line (entry_line e) l ≡ record {
      changed = note_if (is_changed e) e.path l.changed;
      staged = note_if (is_staged e) e.path l.staged;
      untracked = note_if (is_new e) e.path l.untracked;
    }
unfolding add_line
add_line_lem e l h =
    ap (λ p. add_path e.index e.tree p l) (path_of_lem e h) ∙ by_kind_lem e.index e.tree e.path l

add_lines_lem :
    (es : List Entry) (l : Lists)
    → All IsPlainEntry es
    → add_lines (split 10 (print es)) l ≡ lists_of es l
unfolding add_lines print split cut add_line
add_lines_lem [] l h = refl
add_lines_lem (e ∷ es) l h =
    ap (λ ls. add_lines ls l)
      (split_line 10 (entry_line e) (print es)
        (h.0.index_stays, (h.0.tree_stays, ((λ s. omega (arith, s)), h.0.one_line))))
    ∙ ap (add_lines (split 10 (print es))) (add_line_lem e l h.0)
    ∙ add_lines_lem es _ h.1

listed_once :
    (kind : Entry → Bool) (es : List Entry) → noted kind es [] ≡ distinct (paths_where kind es)
listed_once kind es = noted-distinct kind es [] ∙ minus-nil (distinct (paths_where kind es))

-- For entries that git prints as they are, the lists hold these paths, each one once and where it is first: the
-- untracked ones those with two question marks, the staged ones those with a letter for the index
-- that is neither a space nor a question mark, the changed ones the same for the work tree.
pub parse_porcelain-print :
    (es : List Entry) → All IsPlainEntry es → parse_porcelain (print es) ≡ expected es
unfolding parse_porcelain
parse_porcelain-print es h =
    let changed = listed_once is_changed es in
    let staged = listed_once is_staged es in
    let untracked = listed_once is_new es in
    add_lines_lem es no_lists h ∙ rw (changed, staged, untracked) refl
