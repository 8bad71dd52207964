-- ===== src/Worker/Interfaces.antt =====
-- The interfaces of pool.go and reclaimer.go, over the state `S` of the world outside the worker.
use senior_backend_order_ing.Prelude.{ℕ, String, Bool, List, Result, Option, none, some}
use senior_backend_order_ing.Domain.{OrderEvent}
use senior_backend_order_ing.Repository.Process.{ProcessResult}
use senior_backend_order_ing.Service.{ProcessError}
use senior_backend_order_ing.Queue.Message.{StreamMessage}
use senior_backend_order_ing.Monitoring.Collector.{Collector}

-- An error of the queue, with whether it is `context.Canceled`.
pub data QueueError : Type 0 where
  canceled : QueueError
  queue_failed : String → QueueError

-- EventProcessor
pub record EventProcessor (S : Type 0) : Type 0 where
  pub process : OrderEvent → S → Result ProcessError ProcessResult × S

-- StreamQueue
pub record StreamQueue (S : Type 0) : Type 0 where
  pub read_group : String → ℕ → ℕ → S → Result QueueError (List StreamMessage) × S
  pub ack : String → S → Result QueueError (Unit {0}) × S

-- PendingQueue
pub record PendingQueue (S : Type 0) : Type 0 where
  pub claim_pending : String → ℕ → ℕ → S → Result QueueError (List StreamMessage) × S
  pub ack : String → S → Result QueueError (Unit {0}) × S

-- What a worker asks of its context: whether it is done, and to wait for a delay unless it is.
pub record Context (S : Type 0) : Type 0 where
  pub is_done : S → Bool × S
  pub wait_for_retry : ℕ → S → Bool × S

-- How the handling of one message ended; each is one line of the log.
pub data Handled : Type 0 where
  process_failed ack_skipped ack_failed acked : Handled

-- `if metrics != nil { ... }`
abbrev pub with_metrics : (Collector → Collector) → Option Collector → Option Collector
with_metrics f none = none
with_metrics f (some c) = some (f c)
