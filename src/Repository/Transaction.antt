-- ===== src/Repository/Transaction.antt =====
-- The transaction of a repository call: the driver's calls, their errors, and begin, commit and
-- rollback (type dbTransaction, ProcessEventTx and commitResult of order_repository.go).
use senior_backend_order_ing.Prelude.{ℕ, ◌+◌, String, Result, ok, err, if◌then◌else◌}
use senior_backend_order_ing.Domain.{Classification}
use senior_backend_order_ing.Database.{Outcome, Db, Cause, Environment, Statement}

-- The operation that an error message names.
pub data Operation : Type 0 where
  begin_transaction : Operation
  acquire_lock insert_processed load_status update_order insert_order insert_history :
      String → Operation
  insert_pending insert_dead_letter load_pending delete_pending commit : String → Operation
  update_outcome : String → Outcome → Operation

-- The errors of `validateEvent`.
pub data Invalid : Type 0 where
  no_event_id no_order_id no_timestamp unsupported_status bad_payload null_payload : Invalid

-- The error of a repository call. `diverges` is no error of the program: it marks a loop that has
-- run out of its fuel.
pub data Error : Type 0 where
  invalid : Invalid → Error
  failed : Operation → Cause → Error
  replay_failed : String → Error → Error
  unsupported : String → Classification → Error
  diverges : Error

-- The server as the transaction sees it: the number of driver calls so far, the committed tables,
-- the tables with the transaction's own changes, and `now()`.
pub record Session : Type 0 where
  pub calls : ℕ
  pub durable : Db
  pub working : Db
  pub now : ℕ

abbrev pub Tx : Type 0 → Type 0
Tx A = Session → Result Error A × Session

abbrev pub pure : {A : Type 0} → A → Tx A
pure a s = (ok a, s)

abbrev pub fail : {A : Type 0} → Error → Tx A
fail e s = (err e, s)

-- `if err != nil { return ..., err }`
abbrev pub continue :
    {A B : Type 0} → (A → Tx B) → Result Error A × Session → Result Error B × Session
continue f (ok a, s) = f a s
continue f (err e, s) = (err e, s)

infixl 5 ◌>>=◌ ◌>>◌
abbrev pub ◌>>=◌ : {A B : Type 0} → Tx A → (A → Tx B) → Tx B
◌>>=◌ m f s = continue f (m s)

abbrev pub ◌>>◌ : {A B : Type 0} → Tx A → Tx B → Tx B
m >> k = m >>= λ _. k

abbrev pub next_call : Session → Session
next_call s = record s { calls = s.calls + 1 }

abbrev pub settle :
    {A : Type 0} → Operation → Session → Result Cause (A × Db) → Result Error A × Session
settle op s (ok (a, db)) = (ok a, record s { working = db })
settle op s (err c) = (err (Error.failed op c), s)

-- `tx.Exec`, and `tx.QueryRow` with its `Scan`: the call fails in the driver, or the statement
-- runs.
unfoldable pub exec : Environment → {A : Type 0} → Operation → Statement A → Tx A
exec env op statement s =
    if env.fault s.calls
    then (err (Error.failed op Cause.driver_failure), next_call s)
    else settle op (next_call s) (statement s.working)

-- `r.begin(ctx)`
unfoldable pub begin : Environment → Tx (Unit {0})
begin env s =
    if env.fault s.calls
    then (err (Error.failed Operation.begin_transaction Cause.driver_failure), next_call s)
    else (ok tt, record s { calls = s.calls + 1; working = s.durable; now = env.clock s.calls })

-- `tx.Commit(ctx)` in commitResult. A failed call may have committed on the server.
unfoldable pub commit_tx : Environment → String → Tx (Unit {0})
commit_tx env event_id s =
    if env.fault s.calls
    then (
      err (Error.failed (Operation.commit event_id) Cause.driver_failure),
      record s { calls = s.calls + 1; durable = if env.lost s.calls then s.working else s.durable },
    )
    else (ok tt, record s { calls = s.calls + 1; durable = s.working })

-- The deferred `tx.Rollback(ctx)`: what is not committed is dropped, and its error is ignored.
abbrev pub rollback : Session → Session
rollback s = record s { calls = s.calls + 1; working = s.durable }

abbrev pub with_rollback : {A : Type 0} → Tx A → Tx A
with_rollback body s = let (r, s') = body s in (r, rollback s')
