-- ===== src/Lib.antt =====
-- goMultiAgentV2: a server that runs teams of language-model agents. This library models parts of
-- its Go code (server/internal) as functions on explicit state and proves what makes them correct.
--
-- The parts and their files:
-- - Base: helpers. Go strings are lists of runes (Base/Text), with the functions of `strings` that
--   the code calls and `strconv.Itoa` and `Atoi` (Base/Decimal); a Go map from strings is an
--   association list (Base/Assoc); an `int` whose sign matters is a ℤ (Base/Int). The table of
--   lower case beyond ASCII is a parameter, `table`.
-- - Scopes: evictLocked of goal/goal.go, which plan/plan.go repeats: a store keeps one value per
--   scope, and evicts those updated longest ago until it is within its bound. The loops are on
--   fuel, the length of the map, and Scopes/Evictions shows that this is enough. Scopes/Kept is
--   what the two stores' invariants share.
-- - Plan (server/internal/plan/plan.go): Plan/Steps is a plan and its steps, Plan/Store the store
--   (NewStore, Create, Get, Has, IsOpen, AddSteps, UpdateStep, Delete, Len), Plan/Render the views.
-- - Goal (server/internal/goal/goal.go): Goal/Contract is a goal, Goal/Store the store (NewStore,
--   Create, Get, Has, IsOpen, Update, Delete, Len).
-- - Enforcer (server/internal/agent/goal.go and plan.go): Enforcer/Nudges is what beforeModel and
--   afterModel of both files do with an invocation's state; Enforcer/GoalRules and
--   Enforcer/PlanRules are the two extensions, evaluate and the tools over the stores above. The
--   agent framework's response tests are parameters. Enforcer/StateRules is agent/state.go: the tools
--   that keep a session's plan, progress and learnings as artifacts, and beforeModel, which shows
--   them to the model again; it takes any artifact store.
-- - Artifact (server/internal/artifact/store.go): Artifact/Store is the interface and what both
--   stores share, Artifact/Memory the store in memory, Artifact/Files the store in files, over the
--   disk of Artifact/Disk, with the cleaning of keys and names in Artifact/Names. Artifact/Path is what
--   it needs of path/filepath, on clean paths.
-- - Checkpoints (server/internal/model/checkpoint.go, repo/checkpoint.go and api/checkpoint.go):
--   dangerous commands that wait for a person. Checkpoints is the table, Checkpoints/Handlers the
--   handlers. ResolveCheckpointHandler is cut into its reads with the decision, the run of the
--   command, and its writes, so that Checkpoints/Once can put requests in any order.
-- - Identity (server/internal/model/{user,role,apikey}.go and repo/{user,role,apikey}.go): Identity is
--   the tables and their queries, Identity/Seeds the seeded roles (model/role.go), Identity/Auth the
--   authentication and its guards (middleware/auth.go), Identity/Accounts registration and login
--   (api/auth.go), Identity/Keys the API keys (api/apikey.go), Identity/Admin the management of
--   accounts (api/admin.go). Hashing, checking of passwords and the signing and reading
--   of tokens are parameters, not the claims that are signed (auth/jwt.go); `saved_role`
--   is which role's number GORM's Save writes of a row with a loaded role.
-- - Executor (server/internal/executor): Executor/Blacklist is the policy of dangerous commands
--   (blacklist.go), Executor/Host the executor interface and the reading of a process's end
--   (executor.go, host.go), Executor/Safe the guarded executor with its audit (policy.go). Commands
--   change a state `W` that the executor inside is free to choose.
-- - Middleware (server/internal/middleware/ratelimit.go): Middleware/RateLimit is the limiter of
--   requests and its handler, Middleware/Cors the answer to other origins (middleware/cors.go).
-- - Repo (server/internal/repo): Repo/Usage is the filter and the sum of usage records (usage.go),
--   Repo/Budget the budget policies and EvaluateBudgets (budget.go), over tables as lists of rows.
-- - Cron (server/internal/cron/cron.go): Cron/Fields parses expressions; the loop over a range is on
--   fuel, the number of values between its ends. Cron/Schedule is the next time of a schedule, over
--   a parameter for the calendar; its loop is on the minutes up to the limit.
-- - Scheduler (server/internal/scheduler/scheduler.go): the runs of automations at the times of their
--   cron expressions, over Cron. Scheduler is scan, runAutomation and what they call; a run's retries
--   are on the number of attempts that are left. Scheduler/Active puts scans, ends of runs and changes
--   of the table in any order. The runner and the end of its context are parameters.
-- - Taskrun (server/internal/taskrun): background tasks that several nodes claim from one queue.
--   Taskrun/Queue is the queue in memory (queue/queue.go, queue/memory.go), Taskrun/Service is
--   Spawn, Taskrun/Cancel is Cancel, Taskrun/Execute is the poll, the end of an execution, the
--   lease renewal and the cancellation watch (queue_service.go). Taskrun/History puts the
--   operations of all nodes in any order, with any operations of others between the reads and the
--   writes of one. Where the code calls itself again after a lost race, the races are an argument;
--   and so is what the others do before each claim of a poll, which holds no lock
--   from one call to the next: Taskrun/Execute/Polls shows when a poll returns.
--
-- How the code's state appears: a mutex makes an operation one step, so an operation is a function
-- from the state to the state and its answer. A pointer that is returned is a copy. Times are
-- numbers of nanoseconds, the clock's readings are arguments, and 0 is Go's zero time. sort.Slice,
-- which leaves the order of equal elements open, is stable here.
--
-- Not modelled: goroutines, channels, timers and contexts themselves; starting processes; logs,
-- spans and metrics; the agent framework; the queue in SQLite; the failure of a query; the other
-- repositories, the handlers other than those of the checkpoints, accounts, API keys and users, and
-- the other packages of the server.
pub mod Artifact
pub mod Base
pub mod Checkpoints
pub mod Cron
pub mod Enforcer
pub mod Executor
pub mod Goal
pub mod Identity
pub mod Middleware
pub mod Plan
pub mod Repo
pub mod Scheduler
pub mod Scopes
pub mod Taskrun
