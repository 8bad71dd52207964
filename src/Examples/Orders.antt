-- ===== src/Examples/Orders.antt =====
-- An order whose PAID comes before its CREATED, and the theorems of the repository about the two
-- calls.
use senior_backend_order_ing.Prelude.{inl, refl, arith, eq_iff}
use senior_backend_order_ing.Repository.Process.{process_event_tx}
use senior_backend_order_ing.Domain.{
  evaluate_transition, out_of_order_result, transition_table, status_eq, is_known,
}
use senior_backend_order_ing.Database.Table.{find_by, has}
use senior_backend_order_ing.Repository.Refused.{Fails, defers, process_event_tx_refused-Fails}
use senior_backend_order_ing.Repository.Model.{process_model}
use senior_backend_order_ing.Repository.Invariant.{
  empty_db-IsSound, IsSound, IsConsistent-IsSound, process_event_tx-IsSound,
}
use senior_backend_order_ing.Repository.Refinement.Commit.{Ends, process_event_tx-Ends}
use senior_backend_order_ing.Repository.Idempotence.{EndsAsDuplicate, redelivery_changes_nothing}
use senior_backend_order_ing.Repository.Calls.{Leaves, process_event_tx-Leaves}
use senior_backend_order_ing.Repository.Reports.{
  IsReport, IsSameFor, process_event_tx-IsReport, process_event_tx_others,
}
use senior_backend_order_ing.Examples.Fixtures.{
  strict, refused_event, refused_valid, start, calm, created_event, cancelled_event, deferred,
  deferred-IsSound, storable, keeps_json, created_valid, cancelled_valid, created_result,
  created_done,
}

process_event_tx-Ends_example :
    Ends calm "{}"
      (process_model calm (calm.clock deferred.calls) created_event "{}" deferred.durable)
      deferred.durable
      (process_event_tx calm created_event deferred)
process_event_tx-Ends_example =
    process_event_tx-Ends calm created_event "{}" "{}" deferred
      (IsConsistent-IsSound calm deferred.durable deferred-IsSound) created_valid (inl refl)

process_event_tx-IsSound_example :
    IsSound calm (process_event_tx calm created_event deferred).1.durable
process_event_tx-IsSound_example =
    process_event_tx-IsSound calm created_event "{}" "{}" deferred deferred-IsSound created_valid
      storable

redelivery_example :
    let s = (process_event_tx calm created_event deferred).1 in
    EndsAsDuplicate calm cancelled_event s.durable (process_event_tx calm cancelled_event s)
redelivery_example =
    redelivery_changes_nothing calm created_event cancelled_event "{}" "{}" "{}" "{}" deferred
      created_result deferred-IsSound created_valid storable cancelled_valid refl refl created_done

process_event_tx-IsReport_example :
    IsReport calm created_event deferred.durable created_result
      (process_event_tx calm created_event deferred).1.durable
process_event_tx-IsReport_example =
    process_event_tx-IsReport calm created_event "{}" deferred created_result deferred-IsSound
      created_valid created_done

process_event_tx_others_example :
    IsSameFor "order-2" deferred.durable (process_event_tx calm created_event deferred).1.durable
process_event_tx_others_example =
    process_event_tx_others calm created_event "{}" deferred "order-2" deferred-IsSound
      created_valid (λ e. ground (arith, eq_iff "order-1" "order-2"))

process_event_tx-Leaves_example : Leaves calm keeps_json created_event deferred
process_event_tx-Leaves_example =
    process_event_tx-Leaves calm keeps_json created_event deferred deferred-IsSound

process_event_tx_refused-Fails_example :
    Fails strict start.durable (process_event_tx strict refused_event start)
unfolding evaluate_transition out_of_order_result transition_table find_by has status_eq is_known
process_event_tx_refused-Fails_example =
    process_event_tx_refused-Fails strict refused_event "refused" start (empty_db-IsSound strict)
      refused_valid refl refl defers refl
