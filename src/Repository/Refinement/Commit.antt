-- ===== src/Repository/Refinement/Commit.antt =====
-- ProcessEventTx as a whole: begin, the transaction, its commit and the deferred rollback.
use senior_backend_order_ing.Prelude.{
  ℕ, String, ◌≡◌, ◌≢◌, refl, true, Result, ok, err, ◌⊎◌, inl, inr, Bool-cases,
}
use senior_backend_order_ing.Domain.{OrderEvent}
use senior_backend_order_ing.Database.{Db, Environment}
use senior_backend_order_ing.Repository.Transaction.{
  Error, Invalid, Session, continue, begin, commit_tx, rollback,
}
use senior_backend_order_ing.Repository.Validation.{validate_event, validate_event-IsAcceptable}
use senior_backend_order_ing.Repository.Process.{ProcessResult, commit_result, process_event_tx}
use senior_backend_order_ing.Repository.Model.{process_model}
use senior_backend_order_ing.Repository.Refinement.{IsExcused, Meets}
use senior_backend_order_ing.Repository.Refinement.Process.{
  IsConsistent, Stores, process_event-Meets,
}

module _ (env : Environment) where
  -- How a call ends whose specified result is `result`, and whose specified tables are `after`. An
  -- error means that a call of the driver failed; the tables are then what they were, unless the
  -- failed call is a commit that the server has carried out.
  abbrev pub Ends : String → ProcessResult × Db → Db → Result Error ProcessResult × Session → Type 0
  Ends offered (result, after) before (ok r, s) = (r ≡ result) × (s.durable ≡ after)
  Ends offered (result, after) before (err e, s) =
      ((s.durable ≡ before)
        ⊎ ((s.durable ≡ after) × ((n : ℕ) × (env.fault n ≡ true) × (env.lost n ≡ true))))
      × (e ≢ Error.diverges)
      × IsExcused env offered

  rolled_back : Result Error ProcessResult × Session → Result Error ProcessResult × Session
  rolled_back (r, s) = (r, rollback s)

  commit-Ends :
      (offered : String) {durable db : Db} {now : ℕ} {result : ProcessResult}
      (r : Result Error ProcessResult × Session)
      → Meets env offered durable now result db r
      → Ends offered (result, db) durable (rolled_back (continue (commit_result env) r))
  unfolding rolled_back commit_result commit_tx
  commit-Ends offered (err e, s) h = (inl h.spec.0, h.spec.1, h.spec.2)
  commit-Ends offered (ok x, s) h = elim (Bool-cases (env.fault s.calls)) [
    | inr fine ↦ rw fine (h.spec.0, h.spec.1.working)
    | inl broken ↦ elim (Bool-cases (env.lost s.calls)) [
      | inl lost ↦
          rw (broken, lost)
            (inr (h.spec.1.working, (s.calls, broken, lost)), λ p. cc, inl (s.calls, broken))
      | inr kept ↦ rw (broken, kept) (inl h.spec.1.durable_kept, λ p. cc, inl (s.calls, broken))
    ]
  ]

  -- For an event that validation accepts, from consistent tables, where `stored` is what the JSONB
  -- columns keep of its payload if they do not refuse it: ProcessEventTx returns what the
  -- specification says and commits the tables that it says, or returns an error because a call of
  -- the driver failed or the payload was refused. Then the committed tables are unchanged, unless
  -- the call is a commit whose answer was lost, which has committed what the specification says.
  -- The replay loop always ends.
  pub process_event_tx-Ends :
      (event : OrderEvent) (payload stored : String) (s : Session)
      → IsConsistent env s.durable
      → validate_event env event ≡ ok payload
      → Stores env payload stored
      → Ends payload
          (process_model env (env.clock s.calls) event stored s.durable)
          s.durable
          (process_event_tx env event s)
  unfolding process_event_tx rolled_back begin
  process_event_tx-Ends event payload stored s consistent valid json =
      elim (Bool-cases (env.fault s.calls)) [
        | inl broken ↦ rw (valid, broken) (inl refl, (λ p. cc), inl (s.calls, broken))
        | inr fine ↦
            rw (valid, fine)
              (commit-Ends payload _ (
                process_event-Meets env payload s.durable (env.clock s.calls) event stored s.durable
                  (validate_event-IsAcceptable env event payload valid).has_status json consistent
                  (record { working = refl; durable_kept = refl; now_kept = refl })))
      ]

  -- An event that is not acceptable is refused before the transaction begins.
  pub process_event_tx_invalid :
      (event : OrderEvent) {e : Invalid} (s : Session)
      → validate_event env event ≡ err e
      → process_event_tx env event s ≡ (err (Error.invalid e), s)
  unfolding process_event_tx
  process_event_tx_invalid event s h = rw h
