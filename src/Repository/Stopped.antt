-- ===== src/Repository/Stopped.antt =====
-- When the replay loop returns: the order has no pending event, or its first one is still ahead.
use text.Mathlib.TextPositions.{eq_refl}
use senior_backend_order_ing.Prelude.{
  ℕ, zero, suc, ◌<◌, String, ◌≡◌, refl, subst, ◌∙◌, true, Option, none, some, length, arith,
}
use senior_backend_order_ing.Domain.{
  Status, OrderEvent, Classification, TransitionResult, evaluate_transition,
}
use senior_backend_order_ing.Domain.Transitions.{
  IsAhead, Classifies, out_of_order-iff-IsAhead, not-Classifies-duplicate_event,
}
use senior_backend_order_ing.Database.{Db, PendingRow, Environment}
use senior_backend_order_ing.Database.Table.{All-trivial, length-delete_by}
use senior_backend_order_ing.Database.Statements.{pending_key, first_pending}
use senior_backend_order_ing.Database.Pending.{first_pending-All, has-first_pending}
use senior_backend_order_ing.Repository.Statements.{event_of_row}
use senior_backend_order_ing.Repository.Replay.{Round, again, finished}
use senior_backend_order_ing.Repository.Model.{
  status_of, replay_event_model, replay_found_model, replay_round_model, after_round_model,
  replay_loop_model, replay_pending_model, process_model,
}
use senior_backend_order_ing.Repository.Induction.{recorded, process_model-cases}
use senior_backend_order_ing.Repository.Lifecycle.{status_of-applied_db}

module _ (env : Environment) (order_id : String) where
  -- Replay has come to its end: the order has no pending event, or the first one by timestamp is ahead
  -- of the order's status. Others may be pending behind it.
  abbrev pub HasStopped : Db → Type 0
  HasStopped db =
      (status : Status) × (status_of order_id db ≡ some status)
      × ((r : PendingRow)
          → first_pending env order_id db.pending ≡ some r
          → IsAhead status r.status)

module _ (env : Environment) (now : ℕ) (order_id : String) where
  -- A round has finished where replay stops, or goes on at its stored status with fewer rows.
  abbrev RoundEnds : ℕ → Round × Db → Type 0
  RoundEnds rows (again current count, db) =
      (status_of order_id db ≡ some current) × (length db.pending < rows)
  RoundEnds rows (finished count, db) = HasStopped env order_id db

  module _ (r : PendingRow) (current : Status) (count : ℕ) (db : Db)
      (selected : first_pending env order_id db.pending ≡ some r)
      (at : status_of order_id db ≡ some current) where
    of_order : r.order_id ≡ order_id
    of_order =
        (first_pending-All env order_id (λ (x : PendingRow). Unit {0}) r db.pending
          (All-trivial db.pending) selected).1

    event_ends :
        (t : TransitionResult) (c : Classification)
        → Classifies current r.status c
        → RoundEnds (length db.pending) (replay_event_model env now r current count t c db)
    unfolding replay_event_model
    event_ends t Classification.applied c = (
      status_of-applied_db env now (event_of_row r) (some current) db order_id (rw of_order at)
          ∙ rw (of_order, eq_refl),
      length-delete_by pending_key r.event_id db.pending
          (has-first_pending env order_id r db.pending selected),
    )
    event_ends t Classification.duplicate_status c = (
      at,
      length-delete_by pending_key r.event_id db.pending
          (has-first_pending env order_id r db.pending selected),
    )
    event_ends t Classification.invalid_transition c = (
      at,
      length-delete_by pending_key r.event_id db.pending
          (has-first_pending env order_id r db.pending selected),
    )
    event_ends t Classification.out_of_order c = (
      current,
      at,
      λ x first.
          let same : r ≡ x = ground arith in
          subst (λ (p : PendingRow). IsAhead current p.status) same
            ((out_of_order-iff-IsAhead current r.status).0 c),
    )
    event_ends t Classification.duplicate_event c =
        absurd (not-Classifies-duplicate_event current r.status c)

  found_ends :
      (found : Option PendingRow) (current : Status) (count : ℕ) (db : Db)
      → first_pending env order_id db.pending ≡ found
      → status_of order_id db ≡ some current
      → RoundEnds (length db.pending) (replay_found_model env now current count found db)
  unfolding replay_found_model
  found_ends none current count db e at = (current, at, λ x first. cc (e, first))
  found_ends (some r) current count db e at =
      event_ends r current count db e at (evaluate_transition current r.status) _ refl

  ends_after_round :
      (loop : Status → ℕ → Db → ℕ × Db) (rows : ℕ) (step : Round × Db)
      → ((current : Status) (count : ℕ) (db : Db)
          → status_of order_id db ≡ some current
          → length db.pending < rows
          → HasStopped env order_id (loop current count db).1)
      → RoundEnds rows step
      → HasStopped env order_id (after_round_model env now loop step).1
  ends_after_round loop rows (again current count, db) ih h = ih current count db h.0 h.1
  ends_after_round loop rows (finished count, db) ih h = h

  replay_loop_stops :
      (fuel : ℕ) (current : Status) (count : ℕ) (db : Db)
      → status_of order_id db ≡ some current
      → length db.pending < fuel
      → HasStopped env order_id (replay_loop_model env now order_id fuel current count db).1
  unfolding replay_loop_model replay_round_model
  replay_loop_stops zero current count db at enough = absurd (omega arith)
  replay_loop_stops (suc fuel) current count db at enough =
      ends_after_round (replay_loop_model env now order_id fuel) (length db.pending)
        (replay_round_model env now order_id current count db)
        (λ current' count' db' at' fewer.
          replay_loop_stops fuel current' count' db' at' (omega arith))
        (found_ends (first_pending env order_id db.pending) current count db refl at)

  pub replay_pending_stops :
      (current : Status) (db : Db)
      → status_of order_id db ≡ some current
      → HasStopped env order_id (replay_pending_model env now order_id current db).1
  unfolding replay_pending_model
  replay_pending_stops current db at =
      replay_loop_stops (suc (length db.pending)) current 0 db at (omega arith)

-- After an event that is reported as applied, the first deferred event of its order by timestamp, if
-- there is one, waits for a status that the order has not reached.
pub process_model_stops :
    (env : Environment) (now : ℕ) (event : OrderEvent) (stored : String) (db : Db)
    → let (result, after) = process_model env now event stored db in
      result.applied ≡ true → HasStopped env event.order_id after
process_model_stops env now event stored db =
    process_model-cases env now event stored db
      (λ result after. result.applied ≡ true → HasStopped env event.order_id after)
      (record {
        on_old = λ old a. cc a;
        on_applied = λ new c reason a. replay_pending_stops env now event.order_id event.status _ (
            status_of-applied_db env now event (status_of event.order_id db)
              (recorded env now event db) event.order_id refl
            ∙ rw eq_refl);
        on_duplicate_status = λ new c reason a. cc a;
        on_out_of_order = λ new c reason a. cc a;
        on_invalid = λ new c reason a. cc a;
      })
