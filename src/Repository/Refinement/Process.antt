-- ===== src/Repository/Refinement/Process.antt =====
-- ProcessEventTx meets the specification: it is atomic, and it fails only if a call of the driver
-- fails.
use text.Mathlib.TextPositions.{eq_refl}
use senior_backend_order_ing.Prelude.{
  ◌⊎◌, none, ℕ, String, ◌≡◌, refl, ap, ◌∙◌, Bool, true, false, Option, none, some, ◌∷◌, arith,
  Option-cases, Bool-cases, inl, inr, eq_iff,
}
use senior_backend_order_ing.Domain.{
  Status, OrderEvent, Classification, TransitionResult, is_known, evaluate_transition,
}
use senior_backend_order_ing.Domain.Transitions.{not-Classifies-duplicate_event}
use senior_backend_order_ing.Database.{Db, OrderRow, Environment}
use senior_backend_order_ing.Database.Table.{
  All, has, find_by, has-update_by, not-has_of_find_by, has_of_find_by, All-find_by,
}
use senior_backend_order_ing.Database.Statements.{
  order_key, processed_key, history_key, pending_key, set_status,
}
use senior_backend_order_ing.Repository.Transaction.{Session}
use senior_backend_order_ing.Repository.Statements.{found_status, apply_event}
use senior_backend_order_ing.Repository.Process.{record_outcome, classify_event, process_event}
use senior_backend_order_ing.Repository.Model.{
  received_row, history_row, status_of, applied_db, outcome_db, record_outcome_model,
  classify_model, process_model,
}
use senior_backend_order_ing.Repository.Refinement.{IsAt, Meets, pure-Meets, continue-Meets}
use senior_backend_order_ing.Repository.Refinement.Steps.{
  acquire_lock-Meets, insert_processed_event-Meets_new, insert_processed_event-Meets_old,
  load_current_status-Meets, apply_event-Meets_old, apply_event-Meets_new,
  insert_dead_letter_event-Meets, insert_dead_letter_event-Meets_refused,
  insert_pending_event-Meets, insert_pending_event-Meets_refused, update_outcome-Meets,
}
use senior_backend_order_ing.Repository.Refinement.Replay.{
  CanReplay, IsReplayable, replay_pending-Meets,
}

-- The text `stored` is what the JSONB columns keep of the payload, if they do not refuse it.
abbrev pub Stores : Environment → String → String → Type 0
Stores env payload stored = (env.jsonb payload ≡ some stored) ⊎ (env.jsonb payload ≡ none)

-- What the committed tables satisfy between transactions: every stored status is one of the four,
-- every event of the history and of the pending table is among the processed ones, no event is in
-- both, and every pending row can be replayed.
pub record IsConsistent (env : Environment) (db : Db) : Type 0 where
  pub orders_known : All (λ (r : OrderRow). is_known r.current_status ≡ true) db.orders
  pub history_processed :
      (e : String) → has history_key e db.history ≡ true → has processed_key e db.processed ≡ true
  pub pending_processed :
      (e : String) → has pending_key e db.pending ≡ true → has processed_key e db.processed ≡ true
  pub pending_apart :
      (e : String) → has pending_key e db.pending ≡ true → has history_key e db.history ≡ false
  pub pending_ready : All (CanReplay env) db.pending

-- The same, inside a transaction that has recorded one more event, which is in no other table.
record IsFresh (env : Environment) (event_id : String) (db : Db) : Type 0 where
  orders_known : All (λ (r : OrderRow). is_known r.current_status ≡ true) db.orders
  not_in_history : has history_key event_id db.history ≡ false
  not_pending : has pending_key event_id db.pending ≡ false
  pending_apart :
      (e : String) → has pending_key e db.pending ≡ true → has history_key e db.history ≡ false
  pending_ready : All (CanReplay env) db.pending

module _ (env : Environment) (payload : String) (durable : Db) (now : ℕ) where
  module _ (event : OrderEvent) (stored : String) (known : is_known event.status ≡ true)
      (json : Stores env payload stored) {db : Db} (fresh : IsFresh env event.event_id db) where
    order_of_status :
        (current : Status)
        → status_of event.order_id db ≡ some current
        → (has order_key event.order_id db.orders ≡ true) × (is_known current ≡ true)
    order_of_status current e = elim (Option-cases (find_by order_key event.order_id db.orders)) [
      | inl absent ↦ absurd (ground arith)
      | inr (r, found) ↦ (
        has_of_find_by order_key event.order_id r db.orders found,
        ground (
          arith,
          All-find_by order_key (λ (o : OrderRow). is_known o.current_status ≡ true) event.order_id
              r db.orders fresh.orders_known found,
        ),
      )
    ]

    no_order_of_status :
        status_of event.order_id db ≡ none → has order_key event.order_id db.orders ≡ false
    no_order_of_status e = not-has_of_find_by order_key event.order_id db.orders (ground arith)

    still_apart :
        (current : Status) (order_exists : Bool) (e : String)
        → has pending_key e db.pending ≡ true
        → has history_key e (history_row env now event current order_exists ∷ db.history) ≡ false
    unfolding has
    still_apart current order_exists e h =
        ground (arith, eq_iff event.event_id e, fresh.pending_apart e, fresh.not_pending)

    applied_db-IsReplayable :
        (current : Status) (order_exists : Bool)
        → has order_key event.order_id db.orders ≡ order_exists
        → IsReplayable env event.order_id event.status (
            outcome_db env now event.event_id Classification.applied
              (applied_db env now event current order_exists db))
    unfolding has
    applied_db-IsReplayable current true exists = record {
      pending_ready = fresh.pending_ready;
      pending_apart = λ e h. still_apart current true e h;
      order_exists =
          has-update_by order_key event.order_id event.order_id
            (set_status event.status (env.timestamptz event.timestamp) now) db.orders (λ o. refl)
          ∙ exists;
      current_known = known;
    }
    applied_db-IsReplayable current false exists = record {
      pending_ready = fresh.pending_ready;
      pending_apart = λ e h. still_apart current false e h;
      order_exists = rw eq_refl;
      current_known = known;
    }

    record_applied-Meets :
        (current : Status) (order_exists : Bool) (t : TransitionResult)
        → has order_key event.order_id db.orders ≡ order_exists
        → (s : Session)
        → Meets env payload durable now tt
            (applied_db env now event current order_exists db)
            (apply_event env event current order_exists s)
        → let (result, db') =
            record_outcome_model env now event stored
              (current, order_exists)
              t
              Classification.applied
              db in
          Meets env payload durable now result db'
            (record_outcome env event payload (current, order_exists) t Classification.applied s)
    unfolding record_outcome_model record_outcome
    record_applied-Meets current order_exists t exists s applied =
        continue-Meets env payload durable now _ _ applied (λ s1 at1.
          continue-Meets env payload durable now _ _
            (update_outcome-Meets env payload durable now at1 event.event_id Classification.applied)
            (λ s2 at2.
              continue-Meets env payload durable now _ _
                (replay_pending-Meets env payload durable now event.order_id
                  (applied_db-IsReplayable current order_exists exists) at2)
                (λ s3 at3. pure-Meets env payload durable now _ at3)))

    record_outcome-Meets :
        (found : Option Status)
        → status_of event.order_id db ≡ found
        → (t : TransitionResult) (c : Classification)
        → evaluate_transition (found_status found).0 event.status ≡ t
        → t.classification ≡ c
        → {s : Session} → IsAt env payload durable now db s
        → let (result, db') =
            record_outcome_model env now event stored (found_status found) t c db in
          Meets env payload durable now result db'
            (record_outcome env event payload (found_status found) t c s)
    unfolding record_outcome_model record_outcome
    record_outcome-Meets none e t Classification.applied et ec at =
        record_applied-Meets Status.unset false t (no_order_of_status e) _ (
          apply_event-Meets_new env payload durable now at event Status.unset known
            fresh.not_in_history (no_order_of_status e))
    record_outcome-Meets (some current) e t Classification.applied et ec at =
        let (exists, was_known) = order_of_status current e in
        record_applied-Meets current true t exists _ (
          apply_event-Meets_old env payload durable now at event current known was_known
            fresh.not_in_history exists)
    record_outcome-Meets found e t Classification.duplicate_status et ec at =
        continue-Meets env payload durable now _ _
          (update_outcome-Meets env payload durable now at event.event_id
            Classification.duplicate_status)
          (λ s1 at1. pure-Meets env payload durable now _ at1)
    record_outcome-Meets found e t Classification.out_of_order et ec at =
        continue-Meets env payload durable now _ _
          (elim json [
            | inl accepted ↦
                insert_pending_event-Meets env payload durable now at event t.reason payload known
                  accepted fresh.not_pending
            | inr refused ↦
                insert_pending_event-Meets_refused env payload durable now at event t.reason refused
          ])
          (λ s1 at1.
            continue-Meets env payload durable now _ _
              (update_outcome-Meets env payload durable now at1 event.event_id
                Classification.out_of_order)
              (λ s2 at2. pure-Meets env payload durable now _ at2))
    record_outcome-Meets found e t Classification.invalid_transition et ec at =
        continue-Meets env payload durable now _ _
          (elim json [
            | inl accepted ↦
                insert_dead_letter_event-Meets env payload durable now at event t.reason payload
                  known accepted
            | inr refused ↦
                insert_dead_letter_event-Meets_refused env payload durable now at event t.reason
                  refused
          ])
          (λ s1 at1.
            continue-Meets env payload durable now _ _
              (update_outcome-Meets env payload durable now at1 event.event_id
                Classification.invalid_transition)
              (λ s2 at2. pure-Meets env payload durable now _ at2))
    record_outcome-Meets found e t Classification.duplicate_event et ec at = absurd (
        not-Classifies-duplicate_event (found_status found).0 event.status
          (ap (λ (u : TransitionResult). u.classification) et ∙ ec))

    classify_event-Meets :
        {s : Session}
        → IsAt env payload durable now db s
        → let (result, db') = classify_model env now event stored db in
          Meets env payload durable now result db' (classify_event env event payload s)
    unfolding classify_model classify_event
    classify_event-Meets at =
        continue-Meets env payload durable now _ _
          (load_current_status-Meets env payload durable now at event.order_id)
          (λ s1 at1. record_outcome-Meets (status_of event.order_id db) refl _ _ refl refl at1)

  IsFresh-of_new :
      (event : OrderEvent) (db : Db)
      → IsConsistent env db
      → has processed_key event.event_id db.processed ≡ false
      → IsFresh env event.event_id
          (record db { processed = received_row env now event ∷ db.processed })
  IsFresh-of_new event db ok_db new = record {
    orders_known = ok_db.orders_known;
    not_in_history = ground (arith, ok_db.history_processed event.event_id);
    not_pending = ground (arith, ok_db.pending_processed event.event_id);
    pending_apart = ok_db.pending_apart;
    pending_ready = ok_db.pending_ready;
  }

  pub process_event-Meets :
      (event : OrderEvent) (stored : String) (db : Db) {s : Session}
      → is_known event.status ≡ true
      → Stores env payload stored
      → IsConsistent env db
      → IsAt env payload durable now db s
      → let (result, db') = process_model env now event stored db in
        Meets env payload durable now result db' (process_event env event payload s)
  unfolding process_model process_event
  process_event-Meets event stored db known json ok_db at =
      elim (Bool-cases (has processed_key event.event_id db.processed)) [
        | inl old ↦ rw old (
            continue-Meets env payload durable now _ _
              (acquire_lock-Meets env payload durable now at event.order_id)
              (λ s1 at1.
                continue-Meets env payload durable now _ _
                  (insert_processed_event-Meets_old env payload durable now at1 event known old)
                  (λ s2 at2. pure-Meets env payload durable now _ at2)))
        | inr new ↦ rw new (
            continue-Meets env payload durable now _ _
              (acquire_lock-Meets env payload durable now at event.order_id)
              (λ s1 at1.
                continue-Meets env payload durable now _ _
                  (insert_processed_event-Meets_new env payload durable now at1 event known new)
                  (λ s2 at2.
                    classify_event-Meets event stored known json (IsFresh-of_new event db ok_db new)
                      at2)))
      ]
