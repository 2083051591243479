-- ===== src/Lib.antt =====
-- The core of onCode's local agent and of its protocol library, as a model with proofs.
--
-- onCode has a server that plans changes, a local agent that works on the files of a user, and an
-- IDE in front of it. The agent has a bridge, to which the IDE connects, and a transport, on which the
-- server calls it. The agent's hub relays between the IDE and the server: it turns a proposed
-- change into a diff, stores the proposal, and applies it when the server says that it is approved.
-- Tools that the server calls run through a dispatcher. All of them speak the messages of the
-- protocol library.
--
-- The files, and the code that each one models:
--   Protocol/Errors      protocol/errors/errors.go: the codes, the catalog, New
--   Protocol/Ids         protocol/ids/ids.go: New, Parse, Validate, and in Ids/Uuids NewV7,
--                        FormatUUID and parseUUID; Ids/Hex is what it takes from encoding/hex
--   Protocol/Versioning  protocol/versioning/version.go: Parse, String, Compatible
--   Protocol/Messages    protocol/messages/messages.go: the payloads and each Validate
--   Protocol/Adapter     protocol/grpcadapt/adapt.go: the tables, and in Adapter/Convert ToProto and
--                        FromProto
--   Protocol/Json        the values that map[string]any holds, with lookup, insert and remove
--   Tools                local-agent/internal/tools/dispatcher.go: Registry and Dispatch
--   Tools/Local          the handlers of local-agent/internal/tools/: Local/Files and Local/Changes are
--                        workspace/tools.go, Local/Runs is build, test and git, Local/System is system
--                        and what New of local-agent/internal/agent/agent.go registers
--   Diff                 local-agent/internal/diff/unified.go: splitLines, lcsOps, and in
--                        Diff/Unified UnifiedFile and UnifiedJoin
--   Workspace/Store      local-agent/internal/workspace/propose.go: ProposalStore and its claims
--   Workspace/Conflicts  validateChangeConflicts of the same file; filepath.Clean is a parameter
--   Workspace/Propose    Propose of the same file, with existsFile and readExistingForChange
--   Workspace/Disk       what the package asks of the operating system, and in Disk/Memory a disk in
--                        memory for the examples
--   Workspace/Resolve    local-agent/internal/workspace/path.go: ResolvePath and withinRoot
--   Workspace/Registry   local-agent/internal/workspace/workspace.go: Register, Get, Sole, Mutate
--   Workspace/Files      local-agent/internal/workspace/read.go and read_files.go
--   Workspace/Hits, Workspace/Search
--                        local-agent/internal/workspace/search.go
--   Workspace/Sorting    sort.SliceStable and sort.Strings, as the workspace uses them
--   Workspace/Apply      ApplyChanges of local-agent/internal/workspace/apply.go with the change of
--                        the files as a parameter; Apply/Files is that change with its roll back, and
--                        Apply/Local is ApplyChanges on the registered workspaces and the disk
--   Policy               local-agent/internal/policy/approval.go: LocalApproval
--   Process              local-agent/internal/process/runner.go: the limited buffer, Run, Summary
--   Git                  local-agent/internal/gitops/git.go: Status with parsePorcelain, and Diff
--   Maven                local-agent/internal/maven/maven.go: parseSurefire and the results of the runs
--   Agent                local-agent/internal/agent/agent.go: HandleEnvelope
--   Bridge/Access        local-agent/internal/idebridge/: origin.go, bind.go, and handleIPC of bridge.go
--   Bridge/Server        bridge.go there: serveConn, Broadcast, SetHandler, Close
--   Bridge/Discovery     endpoint.go there, and New, Start, Endpoint and Close with the file
--   Transport/Memory     local-agent/internal/transport/memory.go, and Loop of transport.go
--   Transport/Stream     local-agent/internal/transport/grpc.go
--   Session/Chat         local-agent/internal/chatctx/validate.go: ValidateSubmit
--   Session/Change       diffHasContentChange of local-agent/internal/idesession/hub.go
--   Session/Hub, Session/Frames, Session/Events
--                        the Hub of local-agent/internal/idesession/hub.go and apply.go: its state,
--                        Handle, and forwardServerEvent with applyIfAuthorized
--   Session/Proposed     local-agent/internal/actualdiff/actualdiff.go
--   Session/Local        boundApproval, changeSetFromProposed and prepareStoredProposal of
--                        local-agent/internal/idesession/apply.go: the hub on the workspaces and the disk
--   Prelude              what all of them share: lists, texts of bytes, strings.TrimSpace in
--                        Prelude/Space, strconv.Atoi and %d in Prelude/Decimal, path/filepath in
--                        Prelude/Paths, utf8.Valid in Prelude/Utf8
-- The other modules below these hold their theorems; those called Tests hold examples.
--
-- Strings are lists of bytes; the keys of JSON objects and the texts of errors are native strings.
-- A Go map is an association list. Where the source mutates an object, a function takes the state and
-- returns the next one; a record is the state of a component. A nil pointer or a missing value is
-- `none`, and an error is a constructor of the component's own type, without the text that the
-- source formats.
--
-- Parameters stand for code that is not here or is not pure: the random bytes and the clock of NewV7,
-- the time text of an envelope, the handlers of the tools, the time that a call takes, and the decoder
-- of JSON; SHA-256, of which nothing is assumed; strings.ToLower in the search, and the tree that
-- filepath.WalkDir visits; the end of a program that os/exec
-- starts, and with it the runs of git and Maven; the parsers of URLs and IP addresses and the listener of
-- the bridge; the JSON that results and payloads are written as. What a socket or the stream of gRPC gives
-- at a read, and whether a write goes out, are arguments of the steps. In the record Wiring of Session/Hub
-- the stream to the server and the two things that the hub asks of the workspace, to prepare a proposal
-- and to apply it, are fields, which Session/Local fills. Workspace/Apply has the approval validator and the
-- change of the files as parameters; Apply/Local gives the second one.
-- The operating system is the record Disk over an unknown state. Its laws, in IsLawful, say what a write, a
-- removal and a rename that succeed do to the file at a path, that they leave other paths alone, that a
-- file is what is read, and that the target of links is absolute; every call may fail. A path is the
-- canonical text that ResolvePath returns, on Unix, where no path has a volume name; a file is a regular
-- file, a folder or a link, and its mode is not modelled. JSON is taken as decoded. The numbers in it are
-- natural numbers, which is what the hub writes and reads.
--
-- Loops are structural recursion. Only the decimal text of n recurses on fuel, n + 1, which is enough
-- since each digit makes a positive number smaller.
--
-- Not modelled: the start of programs and the search for them; configuration, logging and main as far as
-- they are input and output; deadlines and the limits of a read; the details of errors; generated code;
-- the server in Java and the extension in TypeScript. The mutexes are left out: a step of the model is
-- what runs under one lock, on one goroutine between two waits, or on the hub's one goroutine.
pub mod Agent
pub mod Bridge
pub mod Diff
pub mod Git
pub mod Maven
pub mod Policy
pub mod Prelude
pub mod Process
pub mod Protocol
pub mod Session
pub mod Tools
pub mod Transport
pub mod Workspace
