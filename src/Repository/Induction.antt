-- ===== src/Repository/Induction.antt =====
-- How to prove something of the specification: a rule for the replay loop, and the cases of one
-- event.
use senior_backend_order_ing.Prelude.{
  ℕ, zero, suc, ◌+◌, String, ◌≡◌, refl, ap, ◌∙◌, Bool, true, false, Option, none, some, ◌∷◌, inl,
  inr, Bool-cases, length,
}
use senior_backend_order_ing.Domain.{
  Status, OrderEvent, Classification, TransitionResult, evaluate_transition,
}
use senior_backend_order_ing.Domain.Transitions.{Classifies, not-Classifies-duplicate_event}
use senior_backend_order_ing.Database.{Db, PendingRow, Environment}
use senior_backend_order_ing.Database.Table.{has}
use senior_backend_order_ing.Database.Statements.{processed_key, first_pending}
use senior_backend_order_ing.Repository.Statements.{found_status, event_of_row}
use senior_backend_order_ing.Repository.Replay.{Round, again, finished}
use senior_backend_order_ing.Repository.Process.{ProcessResult, result_of, duplicate_event_result}
use senior_backend_order_ing.Repository.Model.{
  received_row, applied_db, outcome_db, dead_db, pending_db, unpend_db, status_of, with_replay,
  replay_event_model, replay_found_model, replay_round_model, after_round_model, replay_loop_model,
  replay_pending_model, record_outcome_model, classify_model, process_model,
}

module _ {ℓ} (env : Environment) (now : ℕ) (order_id : String) (P : Status → ℕ → Db → Type ℓ) where
  -- The three ways in which a round goes on.
  pub record Rounds : Type ℓ where
    pub on_applied :
        (r : PendingRow) (current : Status) (count : ℕ) (db : Db)
        → first_pending env order_id db.pending ≡ some r
        → Classifies current r.status Classification.applied
        → P current count db
        → P r.status (count + 1) (
            unpend_db env now r.event_id (
              outcome_db env now r.event_id Classification.applied
                (applied_db env now (event_of_row r) current true db)))
    pub on_duplicate :
        (r : PendingRow) (current : Status) (count : ℕ) (db : Db)
        → first_pending env order_id db.pending ≡ some r
        → P current count db
        → P current count (
            unpend_db env now r.event_id
              (outcome_db env now r.event_id Classification.duplicate_status db))
    pub on_invalid :
        (r : PendingRow) (reason : String) (current : Status) (count : ℕ) (db : Db)
        → first_pending env order_id db.pending ≡ some r
        → P current count db
        → P current count (
            unpend_db env now r.event_id (
              outcome_db env now r.event_id Classification.invalid_transition
                (dead_db env now (event_of_row r) reason r.payload db)))

  module _ (rounds : Rounds) where
    abbrev AfterRound : Status → Round × Db → Type ℓ
    AfterRound before (again current count, db) = P current count db
    AfterRound before (finished count, db) = P before count db

    after_event :
        (r : PendingRow) (current : Status) (count : ℕ) (db : Db) (t : TransitionResult)
        (c : Classification)
        → first_pending env order_id db.pending ≡ some r
        → (c ≡ Classification.applied → Classifies current r.status Classification.applied)
        → P current count db
        → AfterRound current (replay_event_model env now r current count t c db)
    unfolding replay_event_model
    after_event r current count db t Classification.applied e a h =
        rounds.on_applied r current count db e (a refl) h
    after_event r current count db t Classification.duplicate_status e a h =
        rounds.on_duplicate r current count db e h
    after_event r current count db t Classification.invalid_transition e a h =
        rounds.on_invalid r t.reason current count db e h
    after_event r current count db t Classification.out_of_order e a h = h
    after_event r current count db t Classification.duplicate_event e a h = h

    after_found :
        (found : Option PendingRow) (current : Status) (count : ℕ) (db : Db)
        → first_pending env order_id db.pending ≡ found
        → P current count db
        → AfterRound current (replay_found_model env now current count found db)
    unfolding replay_found_model
    after_found none current count db e h = h
    after_found (some r) current count db e h =
        after_event r current count db (evaluate_transition current r.status) _ e (λ a. a) h

    go_on :
        (loop : Status → ℕ → Db → ℕ × Db) (before : Status) (step : Round × Db)
        → ((current : Status) (count : ℕ) (db : Db)
            → P current count db
            → (final : Status) × P final (loop current count db).0 (loop current count db).1)
        → AfterRound before step
        → (final : Status) × P final
            (after_round_model env now loop step).0
            (after_round_model env now loop step).1
    go_on loop before (again current count, db) ih h = ih current count db h
    go_on loop before (finished count, db) ih h = (before, h)

    pub replay_loop-induction :
        (fuel : ℕ) (current : Status) (count : ℕ) (db : Db)
        → P current count db
        → let (replayed, db') = replay_loop_model env now order_id fuel current count db in
          (final : Status) × P final replayed db'
    unfolding replay_loop_model
    replay_loop-induction zero current count db h = (current, h)
    replay_loop-induction (suc fuel) current count db h =
        go_on (replay_loop_model env now order_id fuel) current
          (replay_round_model env now order_id current count db) (replay_loop-induction fuel)
          (unfold replay_round_model in
            after_found (first_pending env order_id db.pending) current count db refl h)

    pub replay_pending-induction :
        (current : Status) (db : Db)
        → P current 0 db
        → let (replayed, db') = replay_pending_model env now order_id current db in
          (final : Status) × P final replayed db'
    unfolding replay_pending_model
    replay_pending-induction current db h =
        replay_loop-induction (suc (length db.pending)) current 0 db h

module _ (env : Environment) (now : ℕ) (event : OrderEvent) (before : Db) where
  -- The tables after the event is recorded as processed.
  abbrev pub recorded : Db
  recorded = record before { processed = received_row env now event ∷ before.processed }

  -- What loadCurrentStatus returns for the event's order.
  abbrev pub loaded : Status × Bool
  loaded = found_status (status_of event.order_id before)

module _ {ℓ} (env : Environment) (now : ℕ) (event : OrderEvent) (stored : String) (before : Db)
    (Q : ProcessResult → Db → Type ℓ) where
  -- The five ways in which an event ends.
  pub record Cases : Type ℓ where
    pub on_old :
        has processed_key event.event_id before.processed ≡ true
        → Q (duplicate_event_result event) before
    pub on_applied :
        has processed_key event.event_id before.processed ≡ false
        → Classifies (loaded env now event before).0 event.status Classification.applied
        → (reason : String)
        → let (result, db) = with_replay env now (result_of event Classification.applied reason) (
            replay_pending_model env now event.order_id event.status (
              outcome_db env now event.event_id Classification.applied (
                applied_db env now event
                  (loaded env now event before).0
                  (loaded env now event before).1
                  (recorded env now event before)))) in
          Q result db
    pub on_duplicate_status :
        has processed_key event.event_id before.processed ≡ false
        → Classifies (loaded env now event before).0 event.status Classification.duplicate_status
        → (reason : String)
        → Q
            (record (result_of event Classification.duplicate_status reason) { duplicate = true })
            (outcome_db env now event.event_id Classification.duplicate_status
              (recorded env now event before))
    pub on_out_of_order :
        has processed_key event.event_id before.processed ≡ false
        → Classifies (loaded env now event before).0 event.status Classification.out_of_order
        → (reason : String)
        → Q
            (record (result_of event Classification.out_of_order reason) { pending = true })
            (outcome_db env now event.event_id Classification.out_of_order
              (pending_db env now event reason stored (recorded env now event before)))
    pub on_invalid :
        has processed_key event.event_id before.processed ≡ false
        → Classifies (loaded env now event before).0 event.status Classification.invalid_transition
        → (reason : String)
        → Q
            (record (result_of event Classification.invalid_transition reason) {
              dead_letter = true;
            })
            (outcome_db env now event.event_id Classification.invalid_transition
              (dead_db env now event reason stored (recorded env now event before)))

  module _ (cases : Cases) where
    by_classification :
        has processed_key event.event_id before.processed ≡ false
        → (t : TransitionResult) (c : Classification)
        → evaluate_transition (loaded env now event before).0 event.status ≡ t
        → t.classification ≡ c
        → let (result, db) =
            record_outcome_model env now event stored
              (loaded env now event before)
              t
              c
              (recorded env now event before) in
          Q result db
    unfolding record_outcome_model
    by_classification new t Classification.applied et ec =
        rw ec
          (cases.on_applied new (ap (λ (u : TransitionResult). u.classification) et ∙ ec) t.reason)
    by_classification new t Classification.duplicate_status et ec = rw ec (
        cases.on_duplicate_status new (ap (λ (u : TransitionResult). u.classification) et ∙ ec)
          t.reason)
    by_classification new t Classification.out_of_order et ec = rw ec (
        cases.on_out_of_order new (ap (λ (u : TransitionResult). u.classification) et ∙ ec)
          t.reason)
    by_classification new t Classification.invalid_transition et ec =
        rw ec
          (cases.on_invalid new (ap (λ (u : TransitionResult). u.classification) et ∙ ec) t.reason)
    by_classification new t Classification.duplicate_event et ec = absurd (
        not-Classifies-duplicate_event (loaded env now event before).0 event.status
          (ap (λ (u : TransitionResult). u.classification) et ∙ ec))

    pub process_model-cases :
        let (result, db) = process_model env now event stored before in Q result db
    unfolding process_model classify_model
    process_model-cases = elim (Bool-cases (has processed_key event.event_id before.processed)) [
      | inl old ↦ rw old (cases.on_old old)
      | inr new ↦ rw new (by_classification new _ _ refl refl)
    ]
