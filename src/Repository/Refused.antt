-- ===== src/Repository/Refused.antt =====
-- An event whose payload the JSONB columns refuse, though encoding/json reads it as an object.
use senior_backend_order_ing.Prelude.{
  ℕ, String, ◌≡◌, ◌∙◌, sym, refl, false, none, inl, inr, List, [], ◌∷◌, Result, ok, err,
}
use senior_backend_order_ing.Domain.{OrderEvent, Classification}
use senior_backend_order_ing.Domain.Transitions.{Classifies}
use senior_backend_order_ing.Database.{Db, PendingRow, DeadLetterRow, Environment}
use senior_backend_order_ing.Database.Table.{has}
use senior_backend_order_ing.Database.Statements.{processed_key}
use senior_backend_order_ing.Repository.Transaction.{Error, Session}
use senior_backend_order_ing.Repository.Validation.{validate_event}
use senior_backend_order_ing.Repository.Process.{ProcessResult, process_event_tx}
use senior_backend_order_ing.Repository.Model.{process_model}
use senior_backend_order_ing.Repository.Induction.{loaded, process_model-cases}
use senior_backend_order_ing.Repository.Refinement.Commit.{Ends, process_event_tx-Ends}
use senior_backend_order_ing.Repository.Invariant.{IsSound, IsConsistent-IsSound}

-- The classes whose events are stored with their payload.
pub data StoresPayload : Classification → Type 0 where
  defers : StoresPayload Classification.out_of_order
  buries : StoresPayload Classification.invalid_transition

newest_pending : List PendingRow → String
newest_pending [] = ""
newest_pending (r ∷ rows) = r.payload

newest_dead_letter : List DeadLetterRow → String
newest_dead_letter [] = ""
newest_dead_letter (r ∷ rows) = r.payload

-- The payload of the newest row that such an event adds.
newest_payload : {c : Classification} → StoresPayload c → Db → String
newest_payload defers db = newest_pending db.pending
newest_payload buries db = newest_dead_letter db.dead_letters

module _ (env : Environment) (now : ℕ) (event : OrderEvent) (stored : String) (db : Db)
    (new : has processed_key event.event_id db.processed ≡ false) where
  model_keeps_payload :
      {c : Classification} (p : StoresPayload c)
      → Classifies (loaded env now event db).0 event.status c
      → newest_payload p (process_model env now event stored db).1 ≡ stored
  unfolding newest_payload newest_pending newest_dead_letter
  model_keeps_payload defers is =
      process_model-cases env now event stored db
        (λ result after. newest_payload defers after ≡ stored)
        (record {
          on_old = λ old. cc (old, new);
          on_applied = λ _ c reason. cc (is, c);
          on_duplicate_status = λ _ c reason. cc (is, c);
          on_out_of_order = λ _ c reason. refl;
          on_invalid = λ _ c reason. cc (is, c);
        })
  model_keeps_payload buries is =
      process_model-cases env now event stored db
        (λ result after. newest_payload buries after ≡ stored)
        (record {
          on_old = λ old. cc (old, new);
          on_applied = λ _ c reason. cc (is, c);
          on_duplicate_status = λ _ c reason. cc (is, c);
          on_out_of_order = λ _ c reason. cc (is, c);
          on_invalid = λ _ c reason. refl;
        })

module _ (env : Environment) where
  -- A call ends with an error, and has committed nothing.
  abbrev pub Fails : Db → Result Error ProcessResult × Session → Type 0
  Fails before (ok r, s) = ⊥
  Fails before (err e, s) = s.durable ≡ before

  -- What is specified with two texts for the refused payload cannot both be.
  Fails-of_both_Ends :
      (offered : String) (one other : ProcessResult × Db) (before : Db)
      (r : Result Error ProcessResult × Session)
      → ¬ (one.1 ≡ other.1)
      → Ends env offered one before r
      → Ends env offered other before r
      → Fails before r
  Fails-of_both_Ends offered one other before (ok x, s) apart a b = absurd (apart (sym a.1 ∙ b.1))
  Fails-of_both_Ends offered one other before (err e, s) apart (inl kept, _, _) b = kept
  Fails-of_both_Ends offered one other before (err e, s) apart (inr lost, _, _) (inl kept, _, _) =
      kept
  Fails-of_both_Ends offered one other before (err e, s) apart (inr lost, _, _) (inr lost', _, _) =
      absurd (apart (sym lost.0 ∙ lost'.0))

  -- From sound tables, a call for an acceptable event that is new, whose class is OUT_OF_ORDER or
  -- INVALID_TRANSITION and whose payload the JSONB columns refuse, always ends with an error and
  -- commits nothing.
  pub process_event_tx_refused-Fails :
      (event : OrderEvent) (payload : String) (s : Session) {c : Classification}
      → IsSound env s.durable
      → validate_event env event ≡ ok payload
      → env.jsonb payload ≡ none
      → has processed_key event.event_id s.durable.processed ≡ false
      → StoresPayload c
      → Classifies (loaded env 0 event s.durable).0 event.status c
      → Fails s.durable (process_event_tx env event s)
  process_event_tx_refused-Fails event payload s h valid refused new p is =
      let now = env.clock s.calls in
      let ends = λ (stored : String).
        process_event_tx-Ends env event payload stored s (IsConsistent-IsSound env s.durable h)
          valid (inr refused) in
      let kept = λ (stored : String). model_keeps_payload env now event stored s.durable new p is in
      Fails-of_both_Ends payload (process_model env now event "" s.durable)
        (process_model env now event "{}" s.durable) s.durable (process_event_tx env event s)
        (λ same. absurd (cc (same, kept "", kept "{}"))) (ends "") (ends "{}")
