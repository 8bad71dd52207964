-- ===== src/Repository/Calls.antt =====
-- What any call of ProcessEventTx leaves behind, whatever its event and whatever the driver does.
use text.Mathlib.TextPositions.{eq_refl}
use senior_backend_order_ing.Prelude.{
  some, Option-cases, String, ◌≡◌, ap, true, inl, inr, arith, Result, ok, err, Result-cases,
}
use senior_backend_order_ing.Domain.{OrderEvent}
use senior_backend_order_ing.Database.{Db, Environment}
use senior_backend_order_ing.Database.Table.{has}
use senior_backend_order_ing.Database.Statements.{processed_key}
use senior_backend_order_ing.Repository.Transaction.{Error, Session}
use senior_backend_order_ing.Repository.Validation.{validate_event}
use senior_backend_order_ing.Repository.Process.{ProcessResult, process_event_tx}
use senior_backend_order_ing.Repository.Refinement.Commit.{
  Ends, process_event_tx-Ends, process_event_tx_invalid,
}
use senior_backend_order_ing.Repository.Invariant.{
  IsSound, IsStorable, IsConsistent-IsSound, process_event_tx-IsSound,
}
use senior_backend_order_ing.Repository.Idempotence.{process_model_processed, processed_of_Ends}

-- A JSONB column takes the empty object as it is, and takes every text that it gives back,
-- unchanged. It may refuse other texts.
pub record KeepsJson (env : Environment) : Type 0 where
  pub empty_object : env.jsonb "{}" ≡ some "{}"
  pub stable :
      (payload stored : String) → env.jsonb payload ≡ some stored → env.jsonb stored ≡ some stored

-- What the columns keep of a payload; of one that they refuse, any text serves.
IsStorable-of_payload :
    (env : Environment) (payload : String)
    → KeepsJson env
    → (stored : String) × IsStorable env payload stored
IsStorable-of_payload env payload json = elim (Option-cases (env.jsonb payload)) [
  | inl refused ↦ ("{}", record { accepted = inr refused; stable = json.empty_object })
  | inr (stored, e) ↦ (stored, record { accepted = inl e; stable = json.stable payload stored e })
]

module _ (env : Environment) (json : KeepsJson env) where
  -- What a call leaves, whatever its event and however it ends: the invariant holds, the event IDs
  -- that were processed still are, and if it returned a result then its own event ID is.
  pub record Leaves (event : OrderEvent) (s : Session) : Type 0 where
    pub sound : IsSound env (process_event_tx env event s).1.durable
    pub retains :
        (e : String)
        → has processed_key e s.durable.processed ≡ true
        → has processed_key e (process_event_tx env event s).1.durable.processed ≡ true
    pub stores :
        (x : ProcessResult)
        → (process_event_tx env event s).0 ≡ ok x
        → has processed_key event.event_id (process_event_tx env event s).1.durable.processed ≡ true

  retained_of_Ends :
      (offered : String) (result : ProcessResult) (before after : Db) (e : String)
      (r : Result Error ProcessResult × Session)
      → Ends env offered (result, after) before r
      → has processed_key e before.processed ≡ true
      → has processed_key e after.processed ≡ true
      → has processed_key e r.1.durable.processed ≡ true
  retained_of_Ends offered result before after e (ok y, s) ends was is = rw ends.1 is
  retained_of_Ends offered result before after e (err y, s) (inl kept, ne, broken) was is =
      rw kept was
  retained_of_Ends offered result before after e (err y, s) (inr lost, ne, broken) was is =
      rw lost.0 is

  -- If the JSONB columns accept the empty object and keep what they accept, then a call from sound
  -- tables, whatever its event and however it ends, leaves sound tables, loses no event ID that was
  -- processed, and has recorded its own event ID if it returns a result.
  pub process_event_tx-Leaves :
      (event : OrderEvent) (s : Session) → IsSound env s.durable → Leaves event s
  process_event_tx-Leaves event s h = elim (Result-cases (validate_event env event)) [
    | inl (payload, valid) ↦
        let (stored, storable) = IsStorable-of_payload env payload json in
        let ends =
          process_event_tx-Ends env event payload stored s (IsConsistent-IsSound env s.durable h)
            valid storable.accepted in
        let now = env.clock s.calls in
        record {
          sound = process_event_tx-IsSound env event payload stored s h valid storable;
          retains = λ e was.
              retained_of_Ends payload _ _ _ e (process_event_tx env event s) ends was
                (process_model_processed env now event stored s.durable e (ground (arith, was)));
          stores = λ x done.
              processed_of_Ends env payload _ _ _ event.event_id (process_event_tx env event s) x
                ends done
                (process_model_processed env now event stored s.durable event.event_id
                  (rw eq_refl));
        }
    | inr (e, invalid) ↦
        let refused = process_event_tx_invalid env event s invalid in
        record {
          sound = rw refused h;
          retains = λ k was. rw refused was;
          stores =
              λ x done. cc (done, ap (λ (r : Result Error ProcessResult × Session). r.0) refused);
        }
  ]
