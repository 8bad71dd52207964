-- ===== src/Repository/Accounting.antt =====
-- Every processed event is in the one table that its recorded outcome names.
pub mod Keeps
use senior_backend_order_ing.Prelude.{String, ◌≡◌, Bool, true, false, Option, none, some, arith}
use senior_backend_order_ing.Domain.{Classification}
use senior_backend_order_ing.Database.{Outcome, Db, DeadLetterRow}
use senior_backend_order_ing.Database.Table.{has, find_by}
use senior_backend_order_ing.Database.Statements.{processed_key, history_key, pending_key}

abbrev pub dead_letter_key : DeadLetterRow → String
dead_letter_key r = r.event_id

-- The recorded outcome of an event, if it has been processed.
abbrev pub outcome_of : String → Db → Option Outcome
outcome_of event_id db = elim (find_by processed_key event_id db.processed) [
  | none ↦ none
  | some r ↦ some r.outcome
]

-- Where the event of an outcome is: in the history, among the pending events, in the dead letters.
-- No outcome is RECEIVED or DUPLICATE_EVENT.
abbrev pub Accounts : Option Outcome → Bool → Bool → Bool → Type 0
Accounts none history pending dead = (history ≡ false) × (pending ≡ false) × (dead ≡ false)
Accounts (some Outcome.received) history pending dead = ⊥
Accounts (some (Outcome.classified Classification.applied)) history pending dead =
    (history ≡ true) × (pending ≡ false) × (dead ≡ false)
Accounts (some (Outcome.classified Classification.duplicate_status)) history pending dead =
    (history ≡ false) × (pending ≡ false) × (dead ≡ false)
Accounts (some (Outcome.classified Classification.out_of_order)) history pending dead =
    (history ≡ false) × (pending ≡ true) × (dead ≡ false)
Accounts (some (Outcome.classified Classification.invalid_transition)) history pending dead =
    (history ≡ false) × (pending ≡ false) × (dead ≡ true)
Accounts (some (Outcome.classified Classification.duplicate_event)) history pending dead = ⊥

abbrev pub IsAccountedAt : String → Db → Type 0
IsAccountedAt e db =
    Accounts (outcome_of e db) (has history_key e db.history) (has pending_key e db.pending)
      (has dead_letter_key e db.dead_letters)

abbrev pub IsAccounted : Db → Type 0
IsAccounted db = (event_id : String) → IsAccountedAt event_id db
