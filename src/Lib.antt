-- ===== src/Lib.antt =====
-- A service that ingests order events: it reads them from a Redis stream, applies each to the state
-- of its order in PostgreSQL within one transaction, and acknowledges it.
--
-- The parts and how they interact. A producer publishes events to the stream. The workers of a pool
-- read them through a consumer group, hand each to the processor, and acknowledge it when the
-- processor returns without an error; a reclaimer does the same for messages that another consumer
-- has read and not acknowledged for a while. The processor calls ProcessEventTx of the repository,
-- which records the event ID, asks the state machine for the class of the event, and applies the
-- event, defers it, sends it to the dead letters or reports a duplicate; after an applied event it
-- replays what was deferred for the order. A collector counts the results.
--
-- Which file models what.
--   Domain/Event, Domain/StateMachine: internal/domain/status.go, order_event.go, state_machine.go.
--     A status is text, with a constructor for each constant and one for any other text.
--     Domain/Transitions compares EvaluateTransition with the lifecycle of an order as a graph.
--   Database: migrations/001_init.sql and the SQL of internal/repository/order_repository.go. Schema
--     has the rows and the tables, Statements a function for each statement, with its constraints.
--     `Environment` is what the repository's files do not define: encoding/json, the rounding of
--     TIMESTAMPTZ, JSONB, the collation, `now()`, and which calls of the driver fail.
--   Repository: internal/repository/order_repository.go. Transaction has the session of a connection,
--     `exec` for tx.Exec and tx.QueryRow, begin, commit and rollback; Validation, Statements, Replay
--     and Process have the functions of the file. Model is the specification, without calls of the
--     driver; Refinement compares the two call by call. Induction has the induction principles
--     for the specification, and Lifecycle, Accounting, Invariant, Idempotence, Calls, Effects,
--     Stopped, Reports and Refused are about what a call does.
--   Queue: internal/queue/redis_stream.go, over a client of Redis with a state of its own. Fields has
--     the fields of a message and their parser, Calls the calls, Claims the loop of ClaimPending.
--   Service: internal/service/processor.go.
--   Monitoring: internal/monitoring/metrics.go. Collector has the counters, Stats the snapshot and the
--     handler of GET /stats, and Answers is about what that answers.
--   Worker: internal/worker/pool.go and reclaimer.go. Interfaces has their interfaces, Simulator the
--     ackFailureSimulator, Pool and Reclaimer the handling of messages and the loops, Setup the
--     constructors, System the interleaved steps of all goroutines. Delivery, Runs and Interleavings
--     put the processor over the repository next to any queue; Scripted runs the loop of a worker on
--     the scripts of Script, which say what its context and its queue do.
--   Producer: cmd/producer. Config has the configuration and its validation, Event the records and the
--     texts of IDs, Generator and Phases the methods of eventGenerator over any callback, Publish
--     publishGenerated, Command main.go and printSummary. Plan is the specification of what is
--     generated, a list of scripts; Emission, Follows, Scripts, Tallies, Counts, PlanCounts, Refinement,
--     Validated and Totals compare the two, Identities and Labels are about the plan, Emitted brings
--     them to generate, and Batches, Published, Written and Runs are about publishing; Written says
--     it of the commands of the Redis client and of the lines of the output.
--   Api: the configuration of cmd/api/main.go. Settings has the environment variables of run and what
--     it makes of them, Startup what that guarantees.
--   Prelude/Int, Prelude/Decimal: Go's int, with its wrap-around, and the verbs %d and %09d.
--   Examples: concrete runs.
--
-- How the model corresponds to the code. A function that changes state takes it and returns it. An
-- error is a value; its text is kept where the code makes it of a name, and the wrapping of errors
-- is a constructor. A line of the log is the value `Handled`. Instants are nanoseconds from the start
-- of the year 0; Go's zero time is `zero_time`. Tables are lists, the newest row first. Every call of
-- the driver has a number, and any set of numbers may fail; a failed commit may have been carried
-- out by the server all the same. The 64-bit counters wrap around.
--
-- Bounds and fuel. The replay loop has one unit of fuel more than there are pending rows, since a
-- round that goes on deletes one; a lack of fuel is an error of its own. The loop of ClaimPending
-- has one unit of fuel for each call of XAUTOCLAIM, and returns nothing when it runs out. The loop
-- of a worker runs for a number of rounds, which is a parameter; a script of fewer rounds ends it.
-- The loop of generateNormal has one unit of fuel for each event that is left, since a round
-- generates one at least.
--
-- Not modelled. Transactions run one at a time: what the advisory lock of an order excludes is not
-- an interleaving here. Behind the constructors' checks, a negative count or duration is zero. The
-- columns that the database fills by default are left out but `created_at` of an order. The JSONB
-- columns may refuse a payload that encoding/json reads as an object; what they keep, they are
-- assumed to take back unchanged when a deferred event moves to the dead letters. The timer of the
-- reclaimer only says when it takes a step. The HTTP server, the signals and the connections of
-- cmd/api and internal/db are not modelled. Floating-point numbers, the numbers of rand.Rand,
-- json.Marshal and the parser of the flags are parameters, and the counters of the producer's
-- summary do not wrap around.
mod Prelude
pub mod Domain
pub mod Database
pub mod Repository
pub mod Queue
pub mod Service
pub mod Monitoring
pub mod Worker
pub mod Producer
pub mod Api
mod Examples
