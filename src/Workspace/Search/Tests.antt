-- ===== src/Workspace/Search/Tests.antt =====
-- Examples of searches (local-agent/internal/workspace/search.go), on a disk in memory.
use on_code.Prelude.{◌≡◌, refl, true, false, none, [], ◌∷◌, Bytes, codes, ok, bytes_eq}
use on_code.Prelude.Space.{trim_space}
use on_code.Workspace.Disk.Memory.{Files, memory}
use on_code.Workspace.Resolve.{Workspace}
use on_code.Workspace.Hits.{
  all_modes, in_name, in_path, in_content, Options, Hits, file, folder, Forest, leaf, grow,
}
use on_code.Workspace.Search.{search}

abbrev workspace : Bytes → Workspace
workspace name = record {
  workspace_id = codes "WS-1";
  project_id = [];
  root = record { rooted = true; elements = name ∷ [] };
  revision = 0;
}

abbrev files : Files
files = (codes "/w/ax.txt", codes "x\nb\nx x\n") ∷ (codes "/w/build/x", codes "x") ∷ []

abbrev inside : Forest
inside =
    grow (file (codes "ax.txt")) (grow (folder (codes "build") (grow (file (codes "x")) leaf)) leaf)

abbrev options : Options
options = record {
  query = codes " x ";
  mode = all_modes;
  exclude = none;
  max_results = 3;
  max_bytes = 100;
  max_scan = 100;
}

abbrev same : Bytes → Bytes
same s = s

abbrev hits : Hits
hits = record {
  matches =
      record { path = codes "ax.txt"; kind = in_name; line = 0; preview = [] }
      ∷ record { path = codes "ax.txt"; kind = in_path; line = 0; preview = [] }
      ∷ record { path = codes "ax.txt"; kind = in_content; line = 1; preview = codes "x" }
      ∷ [];
  truncated = true;
}

-- nothing is found where the root itself has the name of an excluded folder
search_test :
    search memory same
      (workspace (codes "build"))
      ((codes "/build/x", codes "x") ∷ [])
      options
      (grow (file (codes "x")) leaf)
    ≡ ok (record { matches = []; truncated = false })
unfolding search trim_space bytes_eq
search_test = refl
