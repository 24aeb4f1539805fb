-- ===== src/Lib.antt =====
-- The verification library of AegisBastion, a platform that runs security work only inside rules of
-- engagement (RoE). Two services decide and carry out: the gatekeeper answers every request for work
-- with allow or deny and signs tokens for what it allows, and the orchestrator of platform-core takes
-- plans in and holds the state of tasks. The guard of the Go SDK asks the token again at each target.
--
-- Common holds text, lists, maps and results; a Go map is an association list, an error is a value.
-- Net holds what the matchers use of Go's net, net/netip and net/url: the parsers and printers are a
-- parameter. A clock is given by its readings.
--
-- Gatekeeper models services/gatekeeper/internal:
--   Capreg        capreg/capreg.go: Lookup, LoadFile, ParseRiskClass
--   Ratelimit     ratelimit/limiter.go: Allow, with exact billionths of a token in place of float64
--   Scopecanon    scopecanon/scope.go: Canonical, MatchEntry, Evaluate
--   Rbac          rbac/rbac.go: Grant, Revoke, checkSoD and the permission tests
--   Revocation    revocation/revocation.go: Revoke, Issue, Active, IsRevoked
--   Blackout      blackout/blackout.go: Active, windowActive, hourIn
--   Approval      approval/approval.go: RequestApproval, RecordApprovalDecision, FindValidApproval
--   Audit         audit/audit.go: Hash, RecordBatch, VerifyRange, IngestAuditEvents
--   Token         token: MintToken (Terms, Mint), ExchangeToken (Exchange), RefreshToken and RevokeToken
--                 (Renewal), the signed form (Jwt), the manifests and sets of targets (Manifest).
--                 A refresh asks Policy's authorize; the rows that authorize stores are what is minted on.
--   Types         the messages that these share
--   Policy        policy/policy.go: Authorize. State holds what the steps read and change, the
--                 interfaces that the service calls among it (Services), Access the steps 1
--                 to 4, Terms 5 to 10, Finish the eleventh. A request that is nil
--                 is not modelled, nor are the texts of reasons, JSON and log lines.
--
-- PlatformCore models services/platform-core:
--   Statemachine  internal/orchestrator/statemachine.go
--   Tasks         internal/store: Transition, SetMissionState, SetAgentStatus; transition and the
--                 release of leases of internal/orchestrator/dispatch.go
--   Results       internal/orchestrator/results.go: HandleResult, without the renewal of a watch
--   Reaper        internal/orchestrator/scheduler.go: runReaperPass, requeueOrDead
--   Killswitch    internal/orchestrator/killswitch.go: HandleRevocation, KillMission, killTasks, with
--                 the queries of internal/store
--   Leases        internal/leases/leases.go: MemStore; Bucket is KVStore, a map for the NATS bucket, Lock its locks
--   Planner       internal/orchestrator/planner.go: SubmitTaskPlan (Submit), validateTask and persistTask
--                 (Intake); of internal/orchestrator/roe.go the tests Active and AllowsCapability (Types);
--                 what its lookups of missions, RoEs and capabilities return is given (Env)
--   Scope         pkg/scope/scope.go
-- The orchestrator's steps take the state, with the tasks table and the effects on other systems as
-- an ordered list, and the caller's copy of the task. The database fails by
-- its constraints, and where a call's failure is given.
-- The write of a task's move fails only by the row that it meets: a failed insert of its log entry and a
-- failed commit, which roll the move back, are left out.
--
-- Sdk models sdks/go, what an agent runs at each target:
--   Types         token/claims.go: ValidAt, Permits; manifest/manifest.go: Contains, EvaluateScope; the
--                 operations of scope/scope.go are an interface, Matcher
--   Revocations   pep/revocation.go: Apply, Replace, Revoked
--   Guard         pep/guard.go: NewGuard, Update, AuthorizeTarget, with Wait of pep/ratelimit.go
-- The bucket of golang.org/x/time and the context are given by what they answer in each call. A time
-- of the guard is in nanoseconds. Whether the audit event of a call is made and
-- taken by the emitter is given with the call.
--
-- Scenarios applies the theorems at concrete inputs.
--
-- No definition runs on fuel: every loop is over a list, but for the loop of VerifyRange, which counts
-- the numbers of its range, within those of a bigint. Case mapping and space are those of ASCII.
-- Not modelled: the dispatch of tasks and its enforcement point, the RoE service, the Go SDK's scope matcher and
-- its verification of tokens, the other SDKs, and
-- the services for discovery, detection, monitoring and data; I/O and SQL text throughout.
pub mod Common
pub mod Net
pub mod Gatekeeper
pub mod PlatformCore
pub mod Sdk
mod Scenarios
