-- ===== src/Workspace/Registry.antt =====
-- The registered workspaces (local-agent/internal/workspace/workspace.go), and the state that they share
-- with the disk.
use on_code.Prelude.{
  Bool, false, Option, none, some, List, [], ◌∷◌, Bytes, Result, ok, err, ◌>>=◌, ◌>>◌, ensure,
  if◌then◌else◌, bytes_eq,
}
use on_code.Prelude.Paths.{FilePath, clean, join, render, starts_with_slash}
use on_code.Protocol.Errors.{
  Code, invalid_argument, invalid_path, workspace_not_found, internal_error,
}
use on_code.Protocol.Ids
use on_code.Protocol.Ids.{IdError}
use on_code.Protocol.Ids.Kinds
use on_code.Protocol.Ids.Uuids.{Uuid}
use on_code.Workspace.Disk.{Disk, Stat, found, missing, unknown}
use on_code.Workspace.Files.{is_directory}
use on_code.Workspace.Resolve.{Workspace}

abbrev pub Workspaces : Type 0
Workspaces = List (Bytes × Workspace)

unfoldable pub find : Bytes → Workspaces → Option Workspace
find id [] = none
find id ((j, ws) ∷ r) = if bytes_eq j id then some ws else find id r

unfoldable pub assign : Bytes → Workspace → Workspaces → Workspaces
assign id ws [] = (id, ws) ∷ []
assign id ws ((j, old) ∷ r) = if bytes_eq j id then (id, ws) ∷ r else (j, old) ∷ assign id ws r

abbrev pub valid_id : Result IdError (Unit {0}) → Result Code (Unit {0})
valid_id (ok u) = ok tt
valid_id (err e) = err invalid_argument

abbrev pub registered : Option Workspace → Result Code Workspace
registered none = err workspace_not_found
registered (some ws) = ok ws

-- `Get`
unfoldable pub get_workspace : Bytes → Workspaces → Result Code Workspace
get_workspace id r = do valid_id (Ids.validate Kinds.workspace id); registered (find id r)

-- `Sole`
unfoldable pub sole : Workspaces → Result Code Workspace
sole ((id, ws) ∷ []) = ok ws
sole _ = err workspace_not_found

abbrev is_directory_at : Stat → Bool
is_directory_at (found i) = is_directory i.kind
is_directory_at missing = false
is_directory_at unknown = false

abbrev canonical : Option Bytes → Result Code FilePath
canonical none = err invalid_path
canonical (some text) = ok (clean text)

abbrev new_id : Result IdError Bytes → Result Code Bytes
new_id (ok id) = ok id
new_id (err e) = err internal_error

module _ (D : Disk) where
  -- `filepath.Abs`, with the directory that the process runs in
  abbrev pub absolute : FilePath → Bytes → FilePath
  absolute directory text =
      if starts_with_slash text then clean text else join directory (clean text).elements

  -- the workspace that `Register` makes
  unfoldable pub new_workspace : FilePath → D.State → Uuid → Bytes → Bytes → Result Code Workspace
  new_workspace directory s uuid project text = do
    let path = render (absolute directory text)
    ensure (is_directory_at (D.stat s path)) invalid_path
    root ← canonical (D.eval_symlinks s path)
    id ← new_id (Ids.new Kinds.workspace uuid)
    ok (record { workspace_id = id; project_id = project; root = root; revision = 0 })

  -- `Register`, with the workspaces behind it
  unfoldable pub register :
      FilePath → D.State → Uuid → Bytes → Bytes → Workspaces → Result Code (Workspace × Workspaces)
  unfolding new_workspace
  register directory s uuid project text r = do
    ws ← new_workspace directory s uuid project text
    ok (ws, assign ws.workspace_id ws r)

  -- What the functions of the package share: the workspaces and the disk.
  pub record World : Type 0 where
    pub workspaces : Workspaces
    pub disk : D.State

  abbrev pub changed :
      {R : Type 0} → Bytes → World → Result Code R × (Workspace × D.State) → Result Code R × World
  changed id w (result, (ws, s)) =
      (result, record { workspaces = assign id ws w.workspaces; disk = s })

  abbrev pub mutate_found :
      {R : Type 0}
      → Bytes
      → (Workspace → D.State → Result Code R × (Workspace × D.State))
      → World
      → Result Code Workspace
      → Result Code R × World
  mutate_found id f w (err e) = (err e, w)
  mutate_found id f w (ok ws) = changed id w (f ws w.disk)

  -- `Mutate`: the function works on the live record
  unfoldable pub mutate :
      {R : Type 0}
      → Bytes
      → (Workspace → D.State → Result Code R × (Workspace × D.State))
      → World
      → Result Code R × World
  mutate id f w = mutate_found id f w (get_workspace id w.workspaces)
