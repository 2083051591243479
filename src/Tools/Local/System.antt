-- ===== src/Tools/Local/System.antt =====
-- The tools of local-agent/internal/tools/system/system.go, Names of dispatcher.go, and the tools that New of
-- local-agent/internal/agent/agent.go registers.
use on_code.Prelude.{true, false, some, List, [], ◌∷◌, map, Bytes, codes}
use on_code.Protocol.Json.{Value, boolean, str, array, object, Items, nil, item, end, field}
use on_code.Protocol.Versioning
use on_code.Tools.{Handler, Registry}
use on_code.Tools.Local.{Bench, replies, success_response}
use on_code.Tools.Local.Files.{Reading, read_file, read_files, search}
use on_code.Tools.Local.Changes.{Writing, propose_changes, apply_changes_tool}
use on_code.Tools.Local.Runs.{Programs, run_build, run_tests, git_status, git_diff}
use on_code.Workspace.Disk.{Disk}
use on_code.Workspace.Sorting.{sort_by}

-- The agent's identifier and version, the time, and the platform.
pub record Identity : Type 0 where
  pub agent_id : Bytes
  pub version : Bytes
  pub now : Bytes
  pub os : Bytes
  pub arch : Bytes

-- `Names`
unfoldable pub names : {W : Type 0} → Registry W → List Bytes
names reg = sort_by (λ n. n) (map (λ e. e.0) reg)

abbrev pub items : List Bytes → Items
items [] = nil
items (s ∷ ss) = item (str s) (items ss)

abbrev pub ping_value : Identity → Value
ping_value i = object (
    field "agent_id" (str i.agent_id) (
      field "version" (str i.version)
        (field "protocol_version" (str Versioning.current) (field "timestamp" (str i.now) end))))

abbrev platform_value : Identity → Value
platform_value i = object (field "os" (str i.os) (field "arch" (str i.arch) end))

abbrev capabilities : Value
capabilities = object (
    field "workspace" (boolean true) (
      field "project_index" (boolean false) (
        field "build" (array (items (codes "maven" ∷ []))) (
          field "test" (array (items (codes "maven" ∷ []))) (
            field "git" (boolean true)
              (field "languages" (array (items (codes "java" ∷ []))) end))))))

abbrev pub capabilities_value : Identity → List Bytes → Value
capabilities_value i tools = object (
    field "agent_version" (str i.version) (
      field "protocol_version" (str Versioning.current) (
        field "platform" (platform_value i)
          (field "capabilities" capabilities (field "supported_tools" (array (items tools)) end)))))

module _ {W : Type 0} (i : Identity) where
  unfoldable pub ping : Handler W
  ping req w = (replies (success_response req.call_id (some (ping_value i))), w)

  -- the names are those of the registry when the call runs
  unfoldable pub get_capabilities : List Bytes → Handler W
  get_capabilities tools req w =
      (replies (success_response req.call_id (some (capabilities_value i tools))), w)

module _ (D : Disk) (sha256 lower : Bytes → Bytes) (i : Identity) (r : Reading D sha256 lower)
    (w : Writing D sha256) (p : Programs D) where
  -- the tools that work on the workspaces, in the order in which they are registered
  abbrev pub workspace_tools : Registry (Bench D)
  workspace_tools =
      (codes "workspace.read_file", read_file D sha256 lower r)
      ∷ (codes "workspace.read_files", read_files D sha256 lower r)
      ∷ (codes "workspace.search", search D sha256 lower r)
      ∷ (codes "workspace.propose_changes", propose_changes D sha256 w)
      ∷ (codes "workspace.apply_changes", apply_changes_tool D sha256 w)
      ∷ (codes "build.run", run_build D p)
      ∷ (codes "test.run", run_tests D p)
      ∷ (codes "git.status", git_status D p)
      ∷ (codes "git.diff", git_diff D p)
      ∷ []

  abbrev tool_names : List Bytes
  tool_names =
      sort_by (λ n. n)
        (codes "system.ping" ∷ codes "system.get_capabilities" ∷ map (λ e. e.0) workspace_tools)

  -- the registry that `New` fills
  unfoldable pub agent_tools : Registry (Bench D)
  agent_tools =
      (codes "system.ping", ping i)
      ∷ (codes "system.get_capabilities", get_capabilities i tool_names)
      ∷ workspace_tools
