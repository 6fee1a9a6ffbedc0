-- ===== src/Lib.antt =====
-- A model of RepoArk with proofs: of its control plane (internal/controlplane), its audit ledger, its
-- configuration, its policy report, its sealed replication stream and its disk score.
--
-- RepoArk backs up Git repositories as generations. Its control plane keeps a store of jobs,
-- repositories, generations with their replicas, agents, restore approvals, object references and
-- erasure shards. Workers lease jobs and report their results; reconcilers read agents and replicas,
-- decide where copies belong, and enqueue jobs; the command line and the metrics read health reports.
--
-- ControlPlane/Model is internal/controlplane/model.go, ControlPlane/Config the records of
-- internal/config/config.go that are read, and ControlPlane/Platform the interface of what lies
-- outside: durations, JSON, base64 and SHA-256 scores, a parameter of every part that uses them.
--
-- ControlPlane/Store is MemoryStore of internal/controlplane/memory.go, a record with one table for
-- each map. Each method holds the mutex from its first line to its return, so it is one function from
-- the store to a result and the new store: Store/Jobs (Enqueue, Lease, Complete, Fail, ListJobs,
-- GetJob, RetryJob), Store/Approvals (the restore approvals), Store/Objects (EnsureObjectRef,
-- ReleaseObjectRef, leases, ProtectedObjectDigests), Store/Repositories (repositories, agents and
-- metadata), Store/Generations (generations, replicas, transfers), Store/ErasureSets (sets and
-- shards), and Store/Summary (Stats). A concurrent use of the store is a list of calls; the modules
-- named History, and Objects/Retries, define the calls and run lists of them. A call's reading of the
-- clock and a fresh identifier are its arguments. What the theorems on the queue promise is written
-- without its helpers: Jobs/Eligible and Jobs/Named say who may lease and which approval a job names,
-- and Agents/Latest, ReplicationHealth/Counted and Planner/Held say the same of agents and replicas.
--
-- Over the store stand ControlPlane/Agents (the tests on agents of replication.go), /Restores
-- (SelectRestoreAffinityWithStorage), /ReplicationHealth (ReplicationHealthWithStorage and the
-- clean-up of transfers), /Erasure (the placement of shards of erasure_distributed.go) and
-- /Erasure/Health (EvaluateDistributedErasureHealth). They read the in-memory store; a failure of a
-- database, which the Store interface could report, does not occur there. ControlPlane/Scheduler is
-- internal/controlplane/scheduler.go: schedules, discovery, and the enqueueing of due backups.
-- ControlPlane/Planner is Reconcile of internal/controlplane/replication.go: Planner/Survey sorts the
-- agents into those that are considered, can be read from and can take a copy; plan lists the copies
-- that a generation lacks, and enqueue_copies turns them into jobs. /Samples has test data, and /Runs,
-- /ScheduleRuns, Planner/Runs and Store/Tests evaluate the functions on it.
--
-- Audit is internal/audit, the ledger that every command appends to. The ledger is the text of its
-- file: Audit/Lines cuts it into lines as bufio.Scanner does, Audit/Ledger checks the chain of hashes
-- (scanVerifiedLocked), Audit/Operations appends, verifies, and writes and checks the signed
-- checkpoint (appendLocked, Append, AppendWithCheckpoint, WriteCheckpoint, VerifyCheckpoint), and
-- Audit/Recent with Recent/Buffer is the ring of Recent. JSON, SHA-256 and Ed25519 are parameters
-- with their documented laws as hypotheses; a file lock makes each call one step.
--
-- Config is Default and Validate of internal/config/config.go over records for every section:
-- Config/Services, Config/Sections and ControlPlane/Config have the records, Config/General,
-- Config/Deployment and Config/Storage the checks in the order of the source, Config/Validity their
-- sequence, and Config/Defaults the defaults. The theorems of Config/Consequences say what a valid
-- configuration gives the parts above: the reconcilers, the scheduler and the placement of shards.
--
-- Replication is internal/replication/crypto.go, the stream in which a generation travels: Encrypt
-- and Decrypt over lists of bytes, where the reads of the source, the nonces, X25519, HMAC, AES-GCM
-- and base64 are parameters. Replication/Frames has the bytes of a frame.
--
-- Policy is Evaluate of internal/policy/policy.go over the evidence that it reads: the latest manifest,
-- the answers of the signature, attestation and ledger checks, and the state files. Each check gives a
-- finding or none, and the report notes them in the order of the source.
--
-- StorageHealth is scoreDisk of internal/storagehealth/smart.go, the risk score that agents report.
--
-- Numbers: an int or int64 that is computed with is a signed integer whose addition and subtraction
-- wrap at 64 bits (Prelude/Int); a counter of entries is a natural number. Times are nanoseconds since
-- year 1, so a time before that is not modelled, and a time that Add takes beyond the range of
-- time.Time is not either. A float64 that is only compared is an integer, and one of
-- the configuration counts millionths. A map is a list of pairs
-- in some order: Go's order of iteration and of ties in sort.Slice is open, and the functions take the
-- order of the list. Case folding in EqualFold is that of ASCII.
--
-- Loops over lists are recursions on the list; the loop of desiredShardAgents, which has no bound of
-- its own, is a recursion on the number of missing copies, since each turn places one or leaves. The
-- loop over the frames of Decrypt takes the number of bytes as fuel, since each turn reads some.
--
-- Not modelled: the SQL store, whose behaviour is in its SQL; HTTP servers and clients, TLS, files,
-- processes and cryptography; Load, Save and ExpandPaths of the configuration, which read files, YAML
-- and the environment; the reconcilers of cas_reconcile.go, storage_maintenance.go and
-- erasure_distributed.go, which Reconcile of replication.go calls at its end; and the packages that
-- run git or read and write archives. The garbage collector of internal/cas, which reads the digests
-- of ProtectedObjectDigests through internal/app, is not modelled either.
pub mod Prelude
pub mod Audit
pub mod Config
pub mod ControlPlane
pub mod Policy
pub mod Replication
pub mod StorageHealth
