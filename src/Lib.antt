-- ===== src/Lib.antt =====
-- A verification library for SAManager-backend, the service that executes scheduled jobs of smart
-- accounts through ERC-4337 bundlers.
--
-- The parts and their files; source paths are from the repository's root.
--
-- Base: texts, lists, Go's errors and results (`Reply`), panics (`Option`), signed integers, digits.
-- Erc4337 is erc4337/user_operation.go: UserOp has the structures, Pack is PackUserOp, Hash is
--   GetUserOpHashV07, Hex is the number parsing, Json is MarshalJSON and UnmarshalJSON, and
--   Json/Packed those of a packed operation.
-- Domain is src/domain/job.go: Job has the structures and ToEntityJob and ToDBJob, Schedule has
--   IsTimeToExecute.
-- Cache is src/repository/job_cache.go: Redis is the interface to the server with its laws, Repo has one
--   function for each method, Reads is about those that change no entry, Refinement has the plain map that it
--   stands for, Queue the queue; a job's entry is the value of the key "<queue>:status:<id>", the queue a list.
-- Jobs is src/repository/job_repo.go and src/service/job.go: Database is the interface to the table with its
--   laws, Repo has the methods, Service passes its calls on to them.
-- Http is what a client sees: Errors is src/domain/error.go, Responses is src/handler/response.go, Guard is the
--   shared secret of src/handler/middleware.go, Jobs is src/handler/job_handler.go. A handler is a function of a
--   request and the table.
-- Network is the interface to the clients of go-ethereum and to the clock; no law restricts its answers.
-- Bundler is erc4337/bundler.go, its loop in Bundler/Wait, whose fuel is the number of attempts.
-- Blockchain is src/service/blockchain.go: the pools of clients. A method that takes the lock twice is two
--   functions, the second being what runs under the write lock.
--   Blockchain/Configs has GetExecutionConfig and GetExecutionConfigsBatch.
-- Execution is src/service/execution.go: ExecuteJob, whose outcomes are a hash, an error, or a panic.
-- Scheduler is src/service/scheduler.go: World is what it works on, Receipts is checkReceiptsForPendingJobs and
--   what it calls, Sync is syncCacheToDatabase, Poll is the rest of pollJobLogic, and executeJobLogic. Where Go
--   visits a map in any order, the order is an argument. Steps has the rounds of its two loops, the calls
--   that they are made of, the requests and changes from outside as a step relation; Kept says what a round keeps.
--   Poll/Race is a round that comes between a job's enqueuing and its execution.
-- Scheduler/Loops is the rest of it: Start, Stop and the two goroutines, each with a program counter and a step
--   function; Ticker is the interval in 64 bits. A turn is a step of one of them, or what happens beside them.
-- Application is NewApplication and Shutdown of src/app/app.go, with src/app/migration.go; Application/Lifecycle is
--   the service as threads: main and the statistics of cmd/samanager/main.go, the HTTP server and the polling
--   worker of src/app/app.go, and the scheduler's loops.
-- Application/Router is registerRoutes of src/app/app.go, with src/handler/middleware.go: the handlers of each route, and
--   what a chain of them does to a request. The engine, the CORS middleware and the pages are parameters.
-- Commands has the other programs: Service is cmd/samanager/main.go up to the start of its workers, ExecuteJob is
--   cmd/executeJob/main.go, SendOp is cmd/erc4337/main.go, Worker is cmd/worker/main.go.
-- Passkeys is src/domain/credential.go and src/domain/user.go, and, in Registration, src/repository/passkey_repo.go,
--   src/service/passkey.go and src/handler/passkey_handler.go.
-- Settings is src/app/config.go (Config, with the text functions that it uses in Texts), src/utils/utils.go (Root, on
--   fuel: one round more than a directory is long) and, in Wiring, what src/app/app.go makes of the configuration.
-- Demo is cmd/scheduler/main.go, a scheduler of its own on the same Redis commands; Demo/Loops has its two goroutines, command by
--   command.
-- Tests holds an in-memory server and table that keep the laws, a network that answers, and the theorems
--   applied to them.
--
-- How they interact: the scheduler reads the active jobs from the table, adds those that are due to the
-- cache and the queue, and a second loop takes them from the queue, executes them through the pools, and
-- writes the hash or the failure to the cache, from where it goes to the table.
--
-- Conventions. Every number is a native natural number or an integer over it; bytes are lists of numbers.
-- A pointer that may be nil is an Option. Errors carry the constant part of their text; the numbers and
-- inputs that the code formats into some of them (chain ids, invalid texts) are left out. Digits are computed
-- with the number itself as fuel, which is enough because a number has at most as many digits as its
-- value. Logging has no effect. Gas limits and fees are big.Int values of any size, as in the code.
--
-- Time is left open: a tick, the second that DequeueJob waits, or main's 15 seconds may come at any moment.
--
-- Not modelled: the libraries (Redis, gorm, go-ethereum, webauthn, gin, zerolog), which are parameters where the
-- modelled code calls them; the level of the logger and the validator's type for decimals, the swagger pages, whose text is
-- generated; the helpers of the tests.
pub mod Base
pub mod Erc4337
pub mod Domain
pub mod Cache
pub mod Jobs
pub mod Network
pub mod Bundler
pub mod Blockchain
pub mod Execution
pub mod Scheduler
pub mod Application
pub mod Commands
pub mod Http
pub mod Passkeys
pub mod Settings
pub mod Demo
pub mod Tests
