-- ===== src/Lib.antt =====
-- A model of webhook-ui: a server that runs a configured command or script, here or on an SSH host,
-- when a webhook is called, and that can run a second hook after a success.
--
-- Parts, and the code that they model:
--   Models     internal/models: hooks, scripts and hosts, and what Validate accepts
--   Store      the tables of internal/database, and the statements on `executions`
--   Execution  markRunning, logExecutionEnd, logExecution (internal/handlers/webhook.go) and
--              SweepInterruptedExecutions (internal/handlers/execution.go)
--   Runner     internal/handlers/runner.go: the bound on asynchronous executions
--   Cancel     internal/handlers/cancel.go: the abort switches of running executions
--   Chain      internal/handlers/success_chain.go: starting and finishing an execution, handing
--              over to its successor, and running a failed successor again
--   Workers    triggerAsync, launchHook (internal/handlers/webhook.go) and Cancel (execution.go) as
--              goroutines that interleave over the Runner, the Cancel registry and the Store
--   TestRun    internal/handlers/testrun.go, and the test runs of internal/handlers/script.go
--   Trigger    Trigger of internal/handlers/webhook.go, and internal/services/hmac.go
--   Executor   internal/services/executor.go, internal/handlers/scriptexec.go and the two Execute
--              functions of internal/services/ssh.go, up to the start of a process or session
--   Retention  CleanupOldExecutions of internal/handlers/execution.go
--   Hooks      internal/handlers/hook.go and validateSuccessTarget: storing hooks whose chains end
--   Resources  internal/handlers/script.go and sshhost.go: storing and deleting scripts and hosts
--   Login      internal/middleware/rate_limiter.go and login_guard.go, and Login of
--              internal/handlers/auth.go
--   Shell      the command lines of internal/services/ssh.go, and readers for the shells that
--              they are sent to
--   LogStream  internal/services/logsink.go and tailbuffer.go: the output of a run, cut into chunks
--   ExecutionLog internal/handlers/executionlogsink.go and Logs of internal/handlers/execution.go:
--              the rows of an execution's output, and their pages
--   Settings   internal/handlers/settings.go and retention.go, and internal/middleware/apitoken.go:
--              the policy for old executions, its sweep, and the API token
--   Common     maps, lists, numbers and texts that the parts share
--
-- How they interact: a Trigger that passes its checks runs the hook by Executor, or hands it to the
-- goroutines of Workers, which take their slots from the Runner. A success stored by Chain waits for
-- a handoff; the dispatch reads the hook from the Store, asks the Runner for an admission, and
-- inserts the successor's row in the transaction that marks its parent; the startup sweep of
-- Execution and the claim of Chain.Retry write the same columns. Hooks keeps the targets that a
-- dispatch follows. The chunks that LogStream cuts go to the sink of ExecutionLog or of TestRun.
--
-- State and failure: SQLite is opened with one connection and each mutex covers its whole method, so
-- a function is one step on the tables or on the object; an interleaving is a sequence of steps.
-- Where a request makes several statements in turn, its function composes them as if nothing came
-- between, unless it takes what others do as an argument; Workers and Chain.Once.Runs interleave them.
-- A statement or a commit fails when a flag of a `Faults` record says so, and the theorems
-- hold for every choice of the flags, but for the request that a dispatch builds from constants,
-- which is taken to succeed where a theorem says so. A handler that makes two statements outside of
-- a transaction takes the two databases that they meet. A panic is `none`. Times are numbers.
-- `json.Valid`, `strconv.Atoi`, `strconv.Itoa` and `strings.ToValidUTF8` are parameters, and so are
-- the records `Packages` of Trigger and `Platform` of Executor.
--
-- Fuel: the walk over success targets has two rounds more than there are hooks, the query for the
-- executions to retain has two rounds for each execution, the trimming of a log one for each row,
-- and the readers of command lines one for each word; all are proved to be enough.
--
-- Not modelled: HTTP routing and JSON (gin), sessions, processes and SSH connections (os/exec,
-- golang.org/x/crypto/ssh), the schema's DDL, the configuration from the environment, and the
-- browser client. The deletion of old executions is not among the steps of Chain.Once.Runs.
mod Common
pub mod Cancel
pub mod Hooks
pub mod LogStream
pub mod Login
pub mod Models
pub mod Store
pub mod Chain
pub mod Execution
pub mod ExecutionLog
pub mod Executor
pub mod Runner
pub mod Resources
pub mod Retention
pub mod Settings
pub mod Shell
pub mod TestRun
pub mod Trigger
pub mod Workers
