-- ===== src/Domain/Transitions.antt =====
-- What the state machine of internal/domain/state_machine.go guarantees, against the lifecycle of
-- an order drawn as a graph.
use senior_backend_order_ing.Prelude.{ℕ, ◌≡◌, ◌≢◌, ◌<◌, ◌↔◌, ◌⊎◌, true, refl, arith}
use senior_backend_order_ing.Domain.Event.{Status, is_known}
use senior_backend_order_ing.Domain.StateMachine.{Classification, evaluate_transition}

-- The lifecycle of an order: the five moves between statuses.
pub data Moves : Status → Status → Type 0 where
  create : Moves Status.unset Status.created
  pay : Moves Status.created Status.paid
  ship : Moves Status.paid Status.shipped
  cancel_created : Moves Status.created Status.cancelled
  cancel_paid : Moves Status.paid Status.cancelled

-- One move or more.
pub data Reaches (a : Status) : Status → Type 0 where
  one : {b : Status} → Moves a b → Reaches a b
  more : {b c : Status} → Reaches a b → Moves b c → Reaches a c

-- The status is ahead of the order: it is reached only through another one that is missing.
abbrev pub IsAhead : Status → Status → Type 0
IsAhead current next =
    (missing : Status) × Reaches current missing × Moves missing next × (next ≢ Status.cancelled)

abbrev pub Classifies : Status → Status → Classification → Type 0
Classifies current next c = (evaluate_transition current next).classification ≡ c

Moves-of_applied :
    (current next : Status) → Classifies current next Classification.applied → Moves current next
unfolding evaluate_transition
Moves-of_applied Status.unset Status.created h = create
Moves-of_applied Status.created Status.paid h = pay
Moves-of_applied Status.created Status.cancelled h = cancel_created
Moves-of_applied Status.paid Status.shipped h = ship
Moves-of_applied Status.paid Status.cancelled h = cancel_paid
Moves-of_applied _ _ h = ground arith

applied_of_Moves :
    {current next : Status}
    → Moves current next
    → (Classifies current next Classification.applied)
      × ((evaluate_transition current next).allowed ≡ true)
unfolding evaluate_transition
applied_of_Moves create = (refl, refl)
applied_of_Moves pay = (refl, refl)
applied_of_Moves ship = (refl, refl)
applied_of_Moves cancel_created = (refl, refl)
applied_of_Moves cancel_paid = (refl, refl)

-- A status is classified APPLIED exactly when the lifecycle has a move to it from the current one.
pub applied-iff-Moves :
    (current next : Status) → Classifies current next Classification.applied ↔ Moves current next
applied-iff-Moves current next = (Moves-of_applied current next, λ m. (applied_of_Moves m).0)

-- The flag `Allowed` is set exactly when the classification is APPLIED.
pub allowed-iff-applied :
    (current next : Status)
    → ((evaluate_transition current next).allowed ≡ true)
      ↔ Classifies current next Classification.applied
unfolding evaluate_transition
allowed-iff-applied current next = (λ h. ground arith, λ h. ground arith)

IsAhead-of_out_of_order :
    (current next : Status)
    → Classifies current next Classification.out_of_order
    → IsAhead current next
unfolding evaluate_transition
IsAhead-of_out_of_order Status.unset Status.paid h = (Status.created, one create, pay, λ e. cc)
IsAhead-of_out_of_order Status.unset Status.shipped h =
    (Status.paid, more (one create) pay, ship, λ e. cc)
IsAhead-of_out_of_order Status.created Status.shipped h = (Status.paid, one pay, ship, λ e. cc)
IsAhead-of_out_of_order Status.unset Status.created h = cc
IsAhead-of_out_of_order _ _ h = absurd (ground arith)

-- How far an order has come.
abbrev pub rank : Status → ℕ
rank Status.unset = 0
rank Status.created = 1
rank Status.paid = 2
rank Status.shipped = 3
rank Status.cancelled = 4
rank (Status.unknown s) = 5

rank-Moves : {a b : Status} → Moves a b → rank a < rank b
rank-Moves create = omega arith
rank-Moves pay = omega arith
rank-Moves ship = omega arith
rank-Moves cancel_created = omega arith
rank-Moves cancel_paid = omega arith

rank-Reaches : {a b : Status} → Reaches a b → rank a < rank b
rank-Reaches (one m) = rank-Moves m
rank-Reaches (more r m) = omega (arith, rank-Reaches r, rank-Moves m)

-- The lifecycle never comes back: no status is reached from itself.
pub not-Reaches-self : (a : Status) → ¬ (Reaches a a)
not-Reaches-self a r = absurd (omega (arith, rank-Reaches r))

unset_of_rank : (a : Status) → rank a < 1 → a ≡ Status.unset
unset_of_rank a h = ground arith

out_of_order_of_IsAhead :
    {current missing next : Status}
    → Reaches current missing
    → Moves missing next
    → next ≢ Status.cancelled
    → Classifies current next Classification.out_of_order
unfolding evaluate_transition
out_of_order_of_IsAhead r create ne = absurd (omega (arith, rank-Reaches r))
out_of_order_of_IsAhead (one create) pay ne = refl
out_of_order_of_IsAhead (more r create) pay ne = absurd (omega (arith, rank-Reaches r))
out_of_order_of_IsAhead (one pay) ship ne = refl
out_of_order_of_IsAhead {current} (more r pay) ship ne = rw (unset_of_rank current (rank-Reaches r))
out_of_order_of_IsAhead r cancel_created ne = absurd (ne refl)
out_of_order_of_IsAhead r cancel_paid ne = absurd (ne refl)

-- A status is classified OUT_OF_ORDER exactly when it is ahead of the current one: a move leads to
-- it from a status that the order has still to reach, and it is not CANCELLED.
pub out_of_order-iff-IsAhead :
    (current next : Status)
    → Classifies current next Classification.out_of_order ↔ IsAhead current next
out_of_order-iff-IsAhead current next =
    (IsAhead-of_out_of_order current next, λ (m, r, y, ne). out_of_order_of_IsAhead r y ne)

-- From SHIPPED and from CANCELLED, nothing is applied and nothing is deferred: the same status
-- again is a duplicate, and every other one, known or not, is an invalid transition.
pub terminal_rejects :
    (current next : Status)
    → (current ≡ Status.shipped) ⊎ (current ≡ Status.cancelled)
    → ((current ≡ next) × Classifies current next Classification.duplicate_status)
      ⊎ ((current ≢ next) × Classifies current next Classification.invalid_transition)
unfolding evaluate_transition
terminal_rejects current next h = ground arith

-- The classification DUPLICATE_EVENT of the repository never comes from the state machine.
pub not-Classifies-duplicate_event :
    (current next : Status) → ¬ (Classifies current next Classification.duplicate_event)
unfolding evaluate_transition
not-Classifies-duplicate_event current next h = ground arith

-- Only a known status can be applied or deferred.
pub known_of_stored :
    (current next : Status)
    → (evaluate_transition current next).classification ≢ Classification.invalid_transition
    → is_known next ≡ true
unfolding evaluate_transition
known_of_stored current next h = ground arith
