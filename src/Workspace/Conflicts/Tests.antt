-- ===== src/Workspace/Conflicts/Tests.antt =====
-- Examples of conflicts between changes (local-agent/internal/workspace/propose.go).
use on_code.Prelude.{◌≡◌, refl, List, [], ◌∷◌, Bytes, codes, err, bytes_eq}
use on_code.Protocol.Errors.{invalid_change_set}
use on_code.Protocol.Messages.{Operation, create, rename, FileChange}
use on_code.Workspace.Conflicts.{
  listed, note_change, note_changes, check_created, validate_change_conflicts, Distinct, Apart,
  paths_of, targets_of, created_of, validate_change_conflicts-Distinct,
}

-- a path that is clean already
abbrev same : Bytes → Bytes
same p = p

abbrev change : Operation → Bytes → Bytes → FileChange
change op path target = record {
  path = path;
  operation = op;
  base_hash = [];
  content = [];
  target_path = target;
}

abbrev changes : List FileChange
changes = change rename (codes "a") (codes "b") ∷ change create (codes "c") [] ∷ []

validate_change_conflicts-Distinct_example :
    Distinct (paths_of same changes)
    × Distinct (targets_of same changes)
    × Apart (created_of same changes) (targets_of same changes)
unfolding validate_change_conflicts note_changes note_change check_created listed bytes_eq
validate_change_conflicts-Distinct_example = validate_change_conflicts-Distinct same changes refl

-- a file is created where another one is moved to, in either order
validate_change_conflicts_test :
    (validate_change_conflicts same
        (change rename (codes "a") (codes "b") ∷ change create (codes "b") [] ∷ [])
      ≡ err invalid_change_set)
    × (validate_change_conflicts same
          (change create (codes "b") [] ∷ change rename (codes "a") (codes "b") ∷ [])
        ≡ err invalid_change_set)
unfolding validate_change_conflicts note_changes note_change check_created listed bytes_eq
validate_change_conflicts_test = (refl, refl)
