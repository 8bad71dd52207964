-- ===== src/Repository/Replay.antt =====
-- replayPending of order_repository.go. The loop takes fuel, one unit for each round.
use senior_backend_order_ing.Prelude.{
  ℕ, zero, suc, ◌+◌, String, true, Option, none, some, length, map_err,
}
use senior_backend_order_ing.Domain.{
  Status, OrderEvent, Classification, TransitionResult, evaluate_transition,
}
use senior_backend_order_ing.Database.{Outcome, Environment}
use senior_backend_order_ing.Repository.Transaction.{Error, Tx, pure, fail, ◌>>=◌, ◌>>◌}
use senior_backend_order_ing.Repository.Statements.{
  apply_event, insert_dead_letter_event, update_outcome, load_next_pending, delete_pending,
}

-- What a round of the loop does next: it goes on with a status and a count, or returns the count.
pub data Round : Type 0 where
  again : Status → ℕ → Round
  finished : ℕ → Round

-- `fmt.Errorf("replay pending event %q: %w", ...)`
abbrev pub while_replaying : {A : Type 0} → String → Tx A → Tx A
while_replaying event_id m s = let (r, s') = m s in (map_err (Error.replay_failed event_id) r, s')

-- The cases of the `switch` on the classification of a pending event.
unfoldable pub replay_event :
    Environment → OrderEvent → Status → ℕ → TransitionResult → Classification → Tx Round
replay_event env event current count t Classification.applied = do
  while_replaying event.event_id (apply_event env event current true)
  update_outcome env event.event_id (Outcome.classified Classification.applied)
  delete_pending env event.event_id
  pure (again event.status (count + 1))
replay_event env event current count t Classification.duplicate_status = do
  update_outcome env event.event_id (Outcome.classified Classification.duplicate_status)
  delete_pending env event.event_id
  pure (again current count)
replay_event env event current count t Classification.invalid_transition = do
  insert_dead_letter_event env event t.reason event.payload
  update_outcome env event.event_id (Outcome.classified Classification.invalid_transition)
  delete_pending env event.event_id
  pure (again current count)
replay_event env event current count t Classification.out_of_order = pure (finished count)
replay_event env event current count t Classification.duplicate_event =
    fail (Error.unsupported event.event_id Classification.duplicate_event)

unfoldable pub replay_found : Environment → Status → ℕ → Option OrderEvent → Tx Round
unfolding replay_event
replay_found env current count none = pure (finished count)
replay_found env current count (some event) =
    let t = evaluate_transition current event.status in
    replay_event env event current count t t.classification

-- One round of the loop.
unfoldable pub replay_round : Environment → String → Status → ℕ → Tx Round
unfolding replay_found
replay_round env order_id current count = do
  event ← load_next_pending env order_id
  replay_found env current count event

-- After a round: the loop goes on, or returns.
abbrev pub after_round : (Status → ℕ → Tx ℕ) → Round → Tx ℕ
after_round loop (again current count) = loop current count
after_round loop (finished count) = pure count

unfoldable pub replay_loop : Environment → String → ℕ → Status → ℕ → Tx ℕ
unfolding replay_round
replay_loop env order_id zero current count = fail Error.diverges
replay_loop env order_id (suc fuel) current count = do
  round ← replay_round env order_id current count
  after_round (replay_loop env order_id fuel) round

-- A round that goes on deletes a pending row, so one unit more than there are rows is enough.
unfoldable pub replay_pending : Environment → String → Status → Tx ℕ
unfolding replay_loop
replay_pending env order_id current s =
    replay_loop env order_id (suc (length s.working.pending)) current 0 s
