-- ===== src/Workspace/Conflicts.antt =====
-- `validateChangeConflicts` of local-agent/internal/workspace/propose.go: no two changes of a set may
-- touch the same path. What cleans a path, filepath.Clean, is a parameter.
use on_code.Prelude.{
  ◌≡◌, ◌∙◌, refl, Bool, true, false, not, ◌&&◌, ◌||◌, List, [], ◌∷◌, Bytes, Result, ok, err, ◌>>=◌,
  ◌>>◌, ensure, >>=-eq-ok, ensure-eq-ok, arith, bytes_eq, All,
}
use on_code.Protocol.Errors.{Code, invalid_change_set}
use on_code.Protocol.Messages.{Operation, create, FileChange, is_rename}
mod Tests

unfoldable pub listed : Bytes → List Bytes → Bool
listed q [] = false
listed q (p ∷ ps) = bytes_eq q p || listed q ps

abbrev pub is_create : Operation → Bool
is_create create = true
is_create _ = false

-- the keys of the maps `seenPath` and `seenTarget`
pub record Seen : Type 0 where
  pub paths : List Bytes
  pub targets : List Bytes

abbrev pub add_if : Bool → Bytes → List Bytes → List Bytes
add_if true t ts = t ∷ ts
add_if false t ts = ts

module _ (clean : Bytes → Bytes) where
  abbrev pub seen_with : FileChange → Seen → Seen
  seen_with c seen = record {
    paths = clean c.path ∷ seen.paths;
    targets = add_if (is_rename c.operation) (clean c.target_path) seen.targets;
  }

  -- a round of the first loop
  unfoldable pub note_change : FileChange → Seen → Result Code Seen
  unfolding listed
  note_change c seen = do
    let p = clean c.path
    let t = clean c.target_path
    let renames = is_rename c.operation
    ensure (not (listed p seen.paths)) invalid_change_set
    ensure (not (renames && bytes_eq t p)) invalid_change_set
    ensure (not (renames && listed t seen.targets)) invalid_change_set
    ensure (not (renames && listed t (p ∷ seen.paths))) invalid_change_set
    ok (seen_with c seen)

  unfoldable pub note_changes : List FileChange → Seen → Result Code Seen
  note_changes [] seen = ok seen
  note_changes (c ∷ cs) seen = do next ← note_change c seen; note_changes cs next

  -- the second loop
  unfoldable pub check_created : List FileChange → List Bytes → Result Code (Unit {0})
  check_created [] targets = ok tt
  check_created (c ∷ cs) targets = do
    ensure (not (is_create c.operation && listed (clean c.path) targets)) invalid_change_set
    check_created cs targets

  unfoldable pub validate_change_conflicts : List FileChange → Result Code (Unit {0})
  unfolding note_changes check_created
  validate_change_conflicts cs = do
    seen ← note_changes cs (record { paths = []; targets = [] })
    check_created cs seen.targets

  abbrev pub paths_of : List FileChange → List Bytes
  paths_of [] = []
  paths_of (c ∷ cs) = clean c.path ∷ paths_of cs

  abbrev pub targets_of : List FileChange → List Bytes
  targets_of [] = []
  targets_of (c ∷ cs) = add_if (is_rename c.operation) (clean c.target_path) (targets_of cs)

  abbrev pub created_of : List FileChange → List Bytes
  created_of [] = []
  created_of (c ∷ cs) = add_if (is_create c.operation) (clean c.path) (created_of cs)

-- No text of the first list stands in the second one.
abbrev pub Apart : List Bytes → List Bytes → Type 0
Apart qs ps = All (λ q. listed q ps ≡ false) qs

abbrev pub Distinct : List Bytes → Type 0
Distinct [] = Unit
Distinct (p ∷ ps) = All (λ q. bytes_eq q p ≡ false) ps × Distinct ps

Apart-cons :
    (qs : List Bytes) (p : Bytes) (ps : List Bytes)
    → Apart qs (p ∷ ps)
    → All (λ q. bytes_eq q p ≡ false) qs × Apart qs ps
unfolding listed
Apart-cons [] p ps h = (tt, tt)
Apart-cons (q ∷ qs) p ps h =
    let (l, r) = Apart-cons qs p ps h.1 in ((ground (arith, h.0), l), (ground (arith, h.0), r))

-- What the first loop owes for the rest of the changes, from what it has seen on.
abbrev Noted : List Bytes → List Bytes → Type 0
Noted qs seen = Apart qs seen × Distinct qs

Noted-path :
    (p : Bytes) (qs seen : List Bytes)
    → listed p seen ≡ false
    → Noted qs (p ∷ seen)
    → Noted (p ∷ qs) seen
Noted-path p qs seen new h = let (l, r) = Apart-cons qs p seen h.0 in ((new, r), (l, h.1))

Noted-target :
    (b : Bool) (t : Bytes) (ts seen : List Bytes)
    → (b && listed t seen) ≡ false
    → Noted ts (add_if b t seen)
    → Noted (add_if b t ts) seen
Noted-target true t ts seen new h = Noted-path t ts seen new h
Noted-target false t ts seen new h = h

or_false : (b : Bool) → (b || false) ≡ b
or_false b = ground arith

not-false : (b : Bool) → not b ≡ true → b ≡ false
not-false b e = ground arith

listed-add_if :
    (q : Bytes) (b : Bool) (t : Bytes) (ts seen : List Bytes)
    → (listed q ts || listed q (add_if b t seen)) ≡ (listed q (add_if b t ts) || listed q seen)
unfolding listed
listed-add_if q true t ts seen = ground arith
listed-add_if q false t ts seen = refl

All-add_if :
    (b : Bool) (p : Bytes) (ps targets : List Bytes)
    → (b && listed p targets) ≡ false
    → Apart ps targets
    → Apart (add_if b p ps) targets
All-add_if true p ps targets new h = (new, h)
All-add_if false p ps targets new h = h

Apart-listed :
    (qs ps ts : List Bytes) → ((q : Bytes) → listed q ts ≡ listed q ps) → Apart qs ts → Apart qs ps
Apart-listed [] ps ts same h = tt
Apart-listed (q ∷ qs) ps ts same h = (rw same at h.0, Apart-listed qs ps ts same h.1)

module _ (clean : Bytes → Bytes) where
  abbrev NotedBy : List FileChange → Seen → Type 0
  NotedBy cs seen = Noted (paths_of clean cs) seen.paths × Noted (targets_of clean cs) seen.targets

  note_change_sound :
      (c : FileChange) (seen next : Seen)
      → note_change clean c seen ≡ ok next
      → (listed (clean c.path) seen.paths ≡ false)
        × ((is_rename c.operation && listed (clean c.target_path) seen.targets) ≡ false)
        × (seen_with clean c seen ≡ next)
  unfolding note_change
  note_change_sound c seen next e = ground arith

  note_changes_sound :
      (cs : List FileChange) (seen last : Seen)
      → note_changes clean cs seen ≡ ok last
      → NotedBy cs seen
  unfolding note_changes
  note_changes_sound [] seen last e = ((tt, tt), (tt, tt))
  note_changes_sound (c ∷ cs) seen last e =
      let (next, now, rest) = >>=-eq-ok (note_change clean c seen) _ e in
      let (new, fresh, same) = note_change_sound c seen next now in
      let later : NotedBy cs (seen_with clean c seen) =
        rw (← same) at (note_changes_sound cs next last rest) in
      (
        Noted-path (clean c.path) (paths_of clean cs) seen.paths new later.0,
        Noted-target (is_rename c.operation) (clean c.target_path) (targets_of clean cs)
            seen.targets fresh later.1,
      )

  -- the targets that the first loop has seen at its end
  note_changes-listed :
      (q : Bytes) (cs : List FileChange) (seen last : Seen)
      → note_changes clean cs seen ≡ ok last
      → listed q last.targets ≡ (listed q (targets_of clean cs) || listed q seen.targets)
  unfolding note_changes
  note_changes-listed q [] seen last e = unfold listed in cc e
  note_changes-listed q (c ∷ cs) seen last e =
      let (next, now, rest) = >>=-eq-ok (note_change clean c seen) _ e in
      let (_, _, same) = note_change_sound c seen next now in
      let later : listed q last.targets
          ≡ (listed q (targets_of clean cs) || listed q (seen_with clean c seen).targets) =
        rw (← same) at (note_changes-listed q cs next last rest) in
      later
      ∙ listed-add_if q (is_rename c.operation) (clean c.target_path) (targets_of clean cs)
          seen.targets

  check_created_sound :
      (cs : List FileChange) (targets : List Bytes)
      → check_created clean cs targets ≡ ok tt
      → Apart (created_of clean cs) targets
  unfolding check_created
  check_created_sound [] targets e = tt
  check_created_sound (c ∷ cs) targets e =
      let (u, new, rest) =
        >>=-eq-ok
          (ensure (not (is_create c.operation && listed (clean c.path) targets)) invalid_change_set)
          _ e in
      All-add_if (is_create c.operation) (clean c.path) (created_of clean cs) targets
        (not-false _ (ensure-eq-ok _ _ u new)) (check_created_sound cs targets rest)

  -- In a change set whose changes do not conflict, no path is named twice, no rename target is named
  -- twice, and no created path is the target of a rename.
  pub validate_change_conflicts-Distinct :
      (cs : List FileChange)
      → validate_change_conflicts clean cs ≡ ok tt
      → Distinct (paths_of clean cs)
        × Distinct (targets_of clean cs)
        × Apart (created_of clean cs) (targets_of clean cs)
  unfolding validate_change_conflicts listed
  validate_change_conflicts-Distinct cs e =
      let start : Seen = record { paths = []; targets = [] } in
      let (last, noted, checked) = >>=-eq-ok (note_changes clean cs start) _ e in
      let (p, t) = note_changes_sound cs start last noted in
      let all_targets : (q : Bytes) → listed q last.targets ≡ listed q (targets_of clean cs) = λ q.
        note_changes-listed q cs start last noted ∙ or_false (listed q (targets_of clean cs)) in
      (
        p.1,
        t.1,
        Apart-listed (created_of clean cs) (targets_of clean cs) last.targets all_targets
            (check_created_sound cs last.targets checked),
      )
