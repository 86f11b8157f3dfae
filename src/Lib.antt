-- ===== src/Lib.antt =====
-- Locorum manages local WordPress sites in Docker containers (Go). This library models the parts of
-- it that carry its own logic.
--
-- internal/orch, the step orchestrator behind every site's lifecycle: Orch.antt (plan.go) and
--   Orch/DryRun.antt (dryrun.go). A step's Apply, Rollback and Describe, the callbacks and the context
--   act on a type `S` that stands for everything outside the runner; a call ends with a Go error or a
--   panic (`Call`). Orch/Saga.antt states what a run should do, without indices; Orch/Trail.antt,
--   Orch/Loop.antt and Orch/Refinement.antt relate the loops of `Run` to it.
-- internal/docker/retry.go, the retry loop around the Docker client: Retry.antt. Five rounds at most
--   are the source's own bound, so the loop needs no other fuel. The client's errors are a type `E`
--   with the questions that the code asks of it (`ErrorView`).
-- internal/health/breaker.go, the circuit breaker of the disk check: Breaker.antt.
-- internal/health/runner.go and check.go, the health runner: Health.antt, with the state's maps as
--   functions; Health/Budget.antt is about the suspension of slow checks, Health/Publish.antt,
--   Health/Order.antt and Health/Timeline.antt about snapshots, the order of their findings and their times.
-- internal/utils/logrotate.go, rotation of log files: LogRotate.antt. The file system is a map from
--   slots to contents with a record of the calls that fail.
-- internal/sites/worktree_slug.go, DNS labels of worktree sites: WorktreeSlug.antt. SHA-256 is a
--   parameter, with the length and the alphabet of its hexadecimal digest as hypotheses.
-- internal/hooks, user commands at lifecycle events: Hooks.antt (events.go, hooks.go),
--   Hooks/Task.antt (tasks.go), and Hooks/Runner.antt and Hooks/Run.antt (runner.go: a task's run, and
--   the run of an event's hooks); Hooks/Step.antt and Hooks/Accounts.antt are about the summary and the
--   error of a run. Executors of tasks, stores and callbacks act on a type `S`. The
--   text of the run log and its file are not modelled, nor is the sweep of old logs.
-- internal/dbengine/filter.go, line filters for database dumps: ImportFilter.antt. The writer is a record
--   of operations on a type `S`, which holds the buffer and what lies behind it; ImportFilter/Stream.antt
--   says when it is reliable, and tells what is sent on from what is held back. The scanner is
--   its lines and the error after them, and the limit on a line is one of its errors.
-- internal/platform/user.go, names for containers from login names: Username.antt. Normal forms and the
--   table of combining marks are parameters (`Unicode`).
-- internal/secrets/registry.go, redaction of secrets in error messages: Secrets.antt. The registry is the
--   list of its values; texts are lists of bytes.
-- internal/config, typed settings: Config.antt (keys.go; Reload and Set of config.go), Config/Typed.antt and
--   Config/Setters.antt (accessors and setters). The store is a record of operations on a type `S`;
--   Config/Coherence.antt says when it is lawful and relates it to the cache, Config/Session.antt is
--   about sequences of setters, Config/Ranges.antt about numbers that are set and read back. An operation
--   is atomic, although Set writes to the store before it takes the lock: calls at the same time are not
--   covered. What the net library makes of a text as an IPv4 address is an argument; LanIPOverride is left out.
-- internal/updatecheck/updatecheck.go, the check for a newer release: Updatecheck.antt (versions),
--   Updatecheck/Comparison.antt, Updatecheck/Order.antt and Updatecheck/Higher.antt (their order), Updatecheck/Check.antt (Check and
--   the choice of a release, with children on what it reports and on the throttle). The HTTP client with
--   the JSON decoder, and the file of the throttle, are operations on a type `S`; times are nanoseconds.
-- internal/daemon/lock.go and lock_unix.go, the lock that makes one process the owner: Daemon.antt, a system
--   of processes with the calls of Acquire and Release as its steps (`call`), in any order and with
--   failures; Daemon/Holders.antt, Daemon/Table.antt, Daemon/Exclusion.antt and Daemon/Progress.antt are
--   about its runs. The side file is the process that it names, and the write of it, with its rename, one step; a lock file has
--   no content, unlike those of older versions. Identifiers of processes are not used again.
-- internal/genmark/genmark.go, generated files that a user may take over: Genmark.antt. A function from paths to
--   contents is the file system; an operation returns all its states on the way, so that a crash may
--   stop it at each. Genmark/Write.antt is about atomicity, Genmark/Marker.antt about texts
--   with the marker, Genmark/Marked.antt about the files that are written.
-- internal/sites/validate.go and internal/platform/paths.go, warnings about the path of a site: SitePath.antt.
--   What the process reads of its own host is an argument beside the host described.
-- internal/health/checks_disk.go, the check of free disk space: DiskCheck.antt, on the breaker of Breaker.antt and
--   the findings of Health.antt; DiskCheck/Gate.antt relates its questions to Docker to the breaker's history.
-- internal/daemon/server.go and internal/daemon/protocol.go, the JSON-RPC server: Ipc.antt (Request, Response,
--   Conn, methodEntry), Ipc/Serve.antt (dispatch, handleHello, enforceScope, Register), Ipc/Loop.antt (handleConn);
--   Ipc/Answers.antt, Ipc/Failures.antt, Ipc/Profiles.antt and Ipc/Scopes.antt prove, and Ipc/Resolve.antt has
--   resolveSite of internal/daemon/methods.go. The JSON library and the handlers are arguments. Errors of handlers are
--   redacted by Secrets.antt. One connection is modelled: requests of others change the world between its frames only
--   where the handlers of the model do.
-- internal/sites/snapshot.go, database snapshots: Snapshots.antt (buildSnapshotName, parseSnapshotName),
--   Snapshots/Store.antt (verifyChecksum), Snapshots/Take.antt (Snapshot, snapshotLocked), Snapshots/Restore.antt
--   (RestoreSnapshot) and Snapshots/Sweep.antt (LoadRetentionPolicy, SweepSnapshots); Parts, Names, Checksum,
--   Untouched, Guard, Deletions, Survivors and Retention beside them prove. The engine, the hooks, the
--   codecs, SHA-256 and the clock are arguments.
-- internal/sites/linkcheck.go, the guards of the link checker's requests: LinkCheck.antt, with LinkCheck/Dial.antt about
--   what is dialled. The libraries of URLs and addresses, the resolver and the dialler are arguments.
-- internal/storage/hooks.go, the table of hooks: HookStore.antt. Passes.antt beside it is about the two passes of a
--   reorder, Insert.antt about the place of a new hook, Listing.antt about the order that is listed, and
--   Session.antt about all calls. A statement of SQL is a function of the rows that gives none where it would break
--   UNIQUE(site_id, event, position), a transaction that fails leaves the table, and whether a site exists is
--   an argument.
--
-- Common.antt passes on the names that the modules share; Common/Lists.antt and Common/Text.antt hold
-- lists over the native numbers, and texts as lists of code points; Common/Decimal.antt is strconv.Itoa
-- and strconv.Atoi for an int of 64 bits.
--
-- Not modelled: wall-clock fields of results, log output, the user interface, the Docker client, the
-- database but for the table of hooks, the daemon's client, its transport and the loop that accepts
-- connections, and the site manager that builds the plans.
pub mod Common
pub mod Orch
pub mod Retry
pub mod Breaker
pub mod Ipc
pub mod LinkCheck
pub mod LogRotate
pub mod WorktreeSlug
pub mod HookStore
pub mod Hooks
pub mod Snapshots
pub mod Updatecheck
pub mod Daemon
pub mod Genmark
pub mod SitePath
pub mod DiskCheck
pub mod Username
pub mod Health
pub mod ImportFilter
pub mod Secrets
pub mod Config
