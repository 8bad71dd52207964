-- ===== src/Repository/Refinement/Replay.antt =====
-- replayPending meets the specification, and its loop ends within its fuel.
use senior_backend_order_ing.Prelude.{
  ℕ, zero, suc, ◌<◌, String, ◌≡◌, refl, true, false, Option, none, some, arith, Result, ok, err,
  map_err, length, ◌∙◌, ◌≢◌, subst, sym, str_eq,
}
use senior_backend_order_ing.Domain.{
  Status, Classification, TransitionResult, is_known, evaluate_transition,
}
use senior_backend_order_ing.Domain.Transitions.{not-Classifies-duplicate_event}
use senior_backend_order_ing.Database.{Db, PendingRow, Environment}
use senior_backend_order_ing.Database.Table.{
  All, has, delete_by, has-delete_by, has-update_by, length-delete_by, All-delete_by,
}
use senior_backend_order_ing.Database.Statements.{
  order_key, history_key, pending_key, first_pending, set_status,
}
use senior_backend_order_ing.Database.Pending.{first_pending-All, has-first_pending}
use senior_backend_order_ing.Repository.Transaction.{Error, Session, Tx}
use senior_backend_order_ing.Repository.Statements.{event_of_row, found_event}
use senior_backend_order_ing.Repository.Replay.{
  Round, again, finished, replay_event, replay_found, replay_round, after_round, replay_loop,
  replay_pending,
}
use senior_backend_order_ing.Repository.Model.{
  replay_event_model, replay_found_model, replay_round_model, after_round_model, replay_loop_model,
  replay_pending_model,
}
use senior_backend_order_ing.Repository.Refinement.{IsAt, Meets, pure-Meets, continue-Meets}
use senior_backend_order_ing.Repository.Refinement.Steps.{
  apply_event-Meets_old, insert_dead_letter_event-Meets, update_outcome-Meets,
  load_next_pending-Meets, delete_pending-Meets,
}

-- A deferred row can be replayed: its status is known, and its payload is one that JSONB gives back
-- unchanged.
abbrev pub CanReplay : Environment → PendingRow → Type 0
CanReplay env r = (is_known r.status ≡ true) × (env.jsonb r.payload ≡ some r.payload)

-- What the loop needs of the tables and of its variable `current`.
pub record IsReplayable (env : Environment) (order_id : String) (current : Status) (db : Db)
    : Type 0 where
  pub pending_ready : All (CanReplay env) db.pending
  pub pending_apart :
      (e : String) → has pending_key e db.pending ≡ true → has history_key e db.history ≡ false
  pub order_exists : has order_key order_id db.orders ≡ true
  pub current_known : is_known current ≡ true

module _ (env : Environment) (offered : String) (durable : Db) (now : ℕ) (order_id : String) where
  replaying-Meets :
      {A : Type 0} {a : A} {db : Db} (event_id : String) (r : Result Error A × Session)
      → Meets env offered durable now a db r
      → Meets env offered durable now a db (map_err (Error.replay_failed event_id) r.0, r.1)
  replaying-Meets event_id (ok x, s) h = h
  replaying-Meets event_id (err e, s) h = record { spec = (h.spec.0, λ p. cc, h.spec.2) }

  -- After a round that goes on, the loop can go on, with fewer pending rows.
  abbrev Continues : ℕ → Round × Db → Type 0
  Continues rows (again current count, db) =
      IsReplayable env order_id current db × (length db.pending < rows)
  Continues rows (finished count, db) = Unit

  module _ {db : Db} {current : Status} (ready : IsReplayable env order_id current db)
      (r : PendingRow) (selected : first_pending env order_id db.pending ≡ some r) (count : ℕ)
      (t : TransitionResult) where
    selected_ready : CanReplay env r × (r.order_id ≡ order_id)
    selected_ready =
        first_pending-All env order_id (CanReplay env) r db.pending ready.pending_ready selected

    selected_stored : has pending_key r.event_id db.pending ≡ true
    selected_stored = has-first_pending env order_id r db.pending selected

    unpended_apart :
        (e : String)
        → has pending_key e (delete_by pending_key r.event_id db.pending) ≡ true
        → (has history_key e db.history ≡ false) × (str_eq r.event_id e ≡ false)
    unpended_apart e h =
        ground (arith, has-delete_by pending_key r.event_id e db.pending, ready.pending_apart e)

    unpended_ready : All (CanReplay env) (delete_by pending_key r.event_id db.pending)
    unpended_ready =
        All-delete_by pending_key (CanReplay env) r.event_id db.pending ready.pending_ready

    unpended_shorter : length (delete_by pending_key r.event_id db.pending) < length db.pending
    unpended_shorter = length-delete_by pending_key r.event_id db.pending selected_stored

    replay_event_model-Continues :
        (c : Classification)
        → Continues (length db.pending) (replay_event_model env now r current count t c db)
    unfolding replay_event_model has
    replay_event_model-Continues Classification.applied = (
      record {
        pending_ready = unpended_ready;
        pending_apart = λ e h. ground (arith, unpended_apart e h);
        order_exists =
            has-update_by order_key r.order_id order_id
              (set_status r.status (env.timestamptz r.event_timestamp) now) db.orders (λ o. refl)
            ∙ ready.order_exists;
        current_known = selected_ready.0.0;
      },
      unpended_shorter,
    )
    replay_event_model-Continues Classification.duplicate_status = (
      record {
        pending_ready = unpended_ready;
        pending_apart = λ e h. (unpended_apart e h).0;
        order_exists = ready.order_exists;
        current_known = ready.current_known;
      },
      unpended_shorter,
    )
    replay_event_model-Continues Classification.invalid_transition = (
      record {
        pending_ready = unpended_ready;
        pending_apart = λ e h. (unpended_apart e h).0;
        order_exists = ready.order_exists;
        current_known = ready.current_known;
      },
      unpended_shorter,
    )
    replay_event_model-Continues Classification.out_of_order = tt
    replay_event_model-Continues Classification.duplicate_event = tt

    replay_event-Meets :
        {s : Session}
        → IsAt env offered durable now db s
        → (c : Classification) → c ≢ Classification.duplicate_event
        → let (round, db') = replay_event_model env now r current count t c db in
          Meets env offered durable now round db'
            (replay_event env (event_of_row r) current count t c s)
    unfolding replay_event_model replay_event
    replay_event-Meets at Classification.applied ne =
        continue-Meets env offered durable now _ _
          (replaying-Meets r.event_id _ (
            apply_event-Meets_old env offered durable now at (event_of_row r) current
              selected_ready.0.0 ready.current_known
              (ready.pending_apart r.event_id selected_stored)
              (rw selected_ready.1 ready.order_exists)))
          (λ s1 at1.
            continue-Meets env offered durable now _ _
              (update_outcome-Meets env offered durable now at1 r.event_id Classification.applied)
              (λ s2 at2.
                continue-Meets env offered durable now _ _
                  (delete_pending-Meets env offered durable now at2 r.event_id)
                  (λ s3 at3. pure-Meets env offered durable now _ at3)))
    replay_event-Meets at Classification.duplicate_status ne =
        continue-Meets env offered durable now _ _
          (update_outcome-Meets env offered durable now at r.event_id
            Classification.duplicate_status)
          (λ s1 at1.
            continue-Meets env offered durable now _ _
              (delete_pending-Meets env offered durable now at1 r.event_id)
              (λ s2 at2. pure-Meets env offered durable now _ at2))
    replay_event-Meets at Classification.invalid_transition ne =
        continue-Meets env offered durable now _ _
          (insert_dead_letter_event-Meets env offered durable now at (event_of_row r) t.reason
            r.payload selected_ready.0.0 selected_ready.0.1)
          (λ s1 at1.
            continue-Meets env offered durable now _ _
              (update_outcome-Meets env offered durable now at1 r.event_id
                Classification.invalid_transition)
              (λ s2 at2.
                continue-Meets env offered durable now _ _
                  (delete_pending-Meets env offered durable now at2 r.event_id)
                  (λ s3 at3. pure-Meets env offered durable now _ at3)))
    replay_event-Meets at Classification.out_of_order ne = pure-Meets env offered durable now _ at
    replay_event-Meets at Classification.duplicate_event ne = absurd (ne refl)

  module _ {db : Db} {current : Status} (ready : IsReplayable env order_id current db)
      (count : ℕ) where
    replay_found-Meets :
        (found : Option PendingRow)
        → first_pending env order_id db.pending ≡ found
        → {s : Session} → IsAt env offered durable now db s
        → let (round, db') = replay_found_model env now current count found db in
          Meets env offered durable now round db'
            (replay_found env current count (found_event found) s)
    unfolding replay_found_model replay_found
    replay_found-Meets none selected at = pure-Meets env offered durable now _ at
    replay_found-Meets (some r) selected at =
        replay_event-Meets ready r selected count (evaluate_transition current r.status) at _
          (not-Classifies-duplicate_event current r.status)

    replay_found_model-Continues :
        (found : Option PendingRow)
        → first_pending env order_id db.pending ≡ found
        → Continues (length db.pending) (replay_found_model env now current count found db)
    unfolding replay_found_model
    replay_found_model-Continues none selected = tt
    replay_found_model-Continues (some r) selected =
        replay_event_model-Continues ready r selected count (evaluate_transition current r.status) _

    replay_round-Meets :
        {s : Session}
        → IsAt env offered durable now db s
        → let (round, db') = replay_round_model env now order_id current count db in
          Meets env offered durable now round db' (replay_round env order_id current count s)
    unfolding replay_round_model replay_round
    replay_round-Meets at =
        continue-Meets env offered durable now _ _
          (load_next_pending-Meets env offered durable now at order_id)
          (λ s1 at1. replay_found-Meets (first_pending env order_id db.pending) refl at1)

    replay_round_model-Continues :
        Continues (length db.pending) (replay_round_model env now order_id current count db)
    unfolding replay_round_model
    replay_round_model-Continues =
        replay_found_model-Continues (first_pending env order_id db.pending) refl

  after_round-Meets :
      (model : Status → ℕ → Db → ℕ × Db) (loop : Status → ℕ → Tx ℕ) (rows : ℕ) (step : Round × Db)
      {s : Session}
      → ((current : Status) (count : ℕ) (db : Db) (t : Session)
          → IsReplayable env order_id current db
          → length db.pending < rows
          → IsAt env offered durable now db t
          → Meets env offered durable now
              (model current count db).0
              (model current count db).1
              (loop current count t))
      → Continues rows step
      → IsAt env offered durable now step.1 s
      → Meets env offered durable now
          (after_round_model env now model step).0
          (after_round_model env now model step).1
          (after_round loop step.0 s)
  after_round-Meets model loop rows (again current count, db) {s} ih next at =
      ih current count db s next.0 next.1 at
  after_round-Meets model loop rows (finished count, db) ih next at =
      pure-Meets env offered durable now count at

  -- With more fuel than pending rows the loop meets its specification; it does not run out.
  pub replay_loop-Meets :
      (fuel : ℕ) (current : Status) (count : ℕ) (db : Db) (s : Session)
      → IsReplayable env order_id current db
      → length db.pending < fuel
      → IsAt env offered durable now db s
      → let (replayed, db') = replay_loop_model env now order_id fuel current count db in
        Meets env offered durable now replayed db' (replay_loop env order_id fuel current count s)
  unfolding replay_loop_model replay_loop
  replay_loop-Meets zero current count db s ready enough at = absurd (omega arith)
  replay_loop-Meets (suc fuel) current count db s ready enough at =
      continue-Meets env offered durable now _ _ (replay_round-Meets ready count at) (λ t at'.
        after_round-Meets _ _ (length db.pending)
          (replay_round_model env now order_id current count db)
          (λ current' count' db' u ready' fewer at''.
            replay_loop-Meets fuel current' count' db' u ready' (omega arith) at'')
          (replay_round_model-Continues ready count) at')

  pub replay_pending-Meets :
      {current : Status} {db : Db} {s : Session}
      → IsReplayable env order_id current db
      → IsAt env offered durable now db s
      → let (replayed, db') = replay_pending_model env now order_id current db in
        Meets env offered durable now replayed db' (replay_pending env order_id current s)
  unfolding replay_pending_model replay_pending
  replay_pending-Meets {current} {db} {s} ready at =
      let (replayed, db') = replay_pending_model env now order_id current db in
      subst
        (λ w.
          Meets env offered durable now replayed db'
            (replay_loop env order_id (suc (length w.pending)) current 0 s))
        (sym at.working)
        (replay_loop-Meets (suc (length db.pending)) current 0 db s ready (omega arith) at)
