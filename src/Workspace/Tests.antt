-- ===== src/Workspace/Tests.antt =====
-- Examples of paths, readings and applies (local-agent/internal/workspace/), on a disk in memory.
use on_code.Prelude.{
  ◌≡◌, refl, true, none, some, List, [], ◌∷◌, Bytes, codes, ok, err, bytes_eq, split,
}
use on_code.Prelude.Paths.{FilePath, clean, render, join, rel}
use on_code.Prelude.Space.{trim_space}
use on_code.Prelude.Utf8.{valid_utf8}
use on_code.Protocol.Errors.{
  apply_failed, path_outside_workspace, invalid_path, workspace_file_not_found,
}
use on_code.Protocol.Ids.Hex
use on_code.Workspace.Apply.Files.Staged.{short-IsNoStage}
use on_code.Workspace.Apply.Files.{
  Backup, Stop, plan_of, place, change_one, change_all, change_planned,
}
use on_code.Workspace.Apply.Files.Rollback.{change_planned-restores}
use on_code.Workspace.Apply.Files.Success.{change_planned-makes}
use on_code.Workspace.Disk.Memory.{Files, lookup, insert, erase, memory, lawful_memory}
use on_code.Workspace.Files.{
  ReadFilesResult, read_entry, failed_entry, read_text_file, read_text_files, hash_bytes,
}
use on_code.Workspace.Files.Counts.{Reports, read_text_files-Reports}
use on_code.Workspace.Resolve.{Workspace, within_root, resolve_path}
use on_code.Workspace.Resolve.Links.{Resolves, resolve_path-Resolves}
use on_code.Workspace.Store.{PlannedFile, delete_file, write_file}

abbrev workspace : Workspace
workspace = record {
  workspace_id = codes "WS-018bcfe5-6800-7708-890a-0b0c0d0e0fff";
  project_id = [];
  root = record { rooted = true; elements = codes "w" ∷ [] };
  revision = 3;
}

abbrev files : Files
files = (codes "/w/a.txt", codes "x\n") ∷ []

abbrev below : Bytes → FilePath
below name = record { rooted = true; elements = codes "w" ∷ name ∷ [] }

resolve_path-Resolves_example :
    Resolves memory workspace files (codes "b/../a.txt") (below (codes "a.txt"))
unfolding resolve_path trim_space clean render join rel within_root split lookup bytes_eq
resolve_path-Resolves_example =
    resolve_path-Resolves memory lawful_memory workspace files (codes "b/../a.txt")
      (below (codes "a.txt")) refl

-- a path that climbs out is refused, in whatever form
resolve_path_test :
    (resolve_path memory workspace files (codes "../a.txt") ≡ err path_outside_workspace)
    × (resolve_path memory workspace files (codes "b/../../w/a.txt") ≡ err path_outside_workspace)
    × (resolve_path memory workspace files (codes "/w/a.txt") ≡ err path_outside_workspace)
    × (resolve_path memory workspace files (codes "b/..") ≡ err invalid_path)
unfolding resolve_path trim_space clean split bytes_eq
resolve_path_test = (refl, refl, refl, refl)

-- The digest of the examples is the text itself.
abbrev digest : Bytes → Bytes
digest text = text

abbrev wanted : List Bytes
wanted = codes "a.txt" ∷ codes "none.txt" ∷ []

abbrev reading : ReadFilesResult
reading = record {
  files =
      read_entry (record {
        path = codes "a.txt";
        content = codes "x\n";
        hash = codes "sha256:780a";
        size = 2;
      })
      ∷ failed_entry (codes "none.txt") workspace_file_not_found
      ∷ [];
  total = 2;
  successes = 1;
  failures = 1;
}

read_text_files-Reports_example : Reports memory digest workspace files 0 wanted reading
unfolding read_text_files read_text_file resolve_path trim_space clean split bytes_eq within_root
    rel join lookup render valid_utf8 hash_bytes Hex.encode
read_text_files-Reports_example =
    read_text_files-Reports memory digest workspace files 0 wanted reading refl

abbrev plans : List (Bytes × PlannedFile)
plans = (codes "a.txt", write_file (codes "y\n")) ∷ (codes "b.txt", delete_file) ∷ []

abbrev planned_names : List Bytes
planned_names = codes "a.txt" ∷ codes "b.txt" ∷ []

abbrev backup_a : Backup
backup_a = record {
  relative = codes "a.txt";
  absolute = below (codes "a.txt");
  saved = some (codes "x\n");
}

abbrev backup_b : Backup
backup_b = record { relative = codes "b.txt"; absolute = below (codes "b.txt"); saved = none }

abbrev changed_files : Files
changed_files = (codes "/w/a.txt", codes "y\n") ∷ []

abbrev stopped : Stop Files
stopped = record {
  reason = apply_failed;
  taken = backup_a ∷ [];
  reached = changed_files;
  leftover = none;
}

-- the hook of the tests stops the loop behind its first file
change_planned-restores_example :
    ((change_planned memory workspace plans 1 planned_names files).0 ≡ err apply_failed)
    × (lookup (codes "/w/a.txt") (change_planned memory workspace plans 1 planned_names files).1
        ≡ some (codes "x\n"))
unfolding change_all change_one resolve_path trim_space clean split bytes_eq within_root rel join
    lookup render plan_of place insert erase lawful_memory
change_planned-restores_example =
    change_planned-restores memory lawful_memory workspace plans 1 planned_names files stopped
      (codes "/w/a.txt") refl (refl, tt) (short-IsNoStage (codes "/w/a.txt") refl)

change_planned-makes_example :
    (codes "b.txt" ∷ codes "a.txt" ∷ [] ≡ codes "b.txt" ∷ codes "a.txt" ∷ [])
    × ((change_planned memory workspace plans 0 planned_names files).0 ≡ ok tt)
    × (lookup (codes "/w/a.txt") (change_planned memory workspace plans 0 planned_names files).1
        ≡ some (codes "y\n"))
unfolding change_all change_one resolve_path trim_space clean split bytes_eq within_root rel join
    lookup render plan_of place insert erase lawful_memory
change_planned-makes_example =
    change_planned-makes memory lawful_memory workspace plans 0 planned_names files changed_files
      (backup_b ∷ backup_a ∷ []) (codes "/w/a.txt") refl (short-IsNoStage (codes "/w/a.txt") refl)
