-- ===== src/Database/Pending.antt =====
-- Which row the query of loadNextPending selects.
use senior_backend_order_ing.Prelude.{
  String, ◌≡◌, ap, true, some, List, [], ◌∷◌, ◌⊎◌, inl, inr, eq_iff, arith,
}
use senior_backend_order_ing.Database.Schema.{PendingRow}
use senior_backend_order_ing.Database.Table.{All, has}
use senior_backend_order_ing.Database.Statements.{Environment, pending_key, first_pending}

module _ (env : Environment) (order_id : String) where
  selected_cases :
      (r x : PendingRow) (rows : List PendingRow)
      → first_pending env order_id (x ∷ rows) ≡ some r
      → ((r ≡ x) × (x.order_id ≡ order_id)) ⊎ (first_pending env order_id rows ≡ some r)
  unfolding first_pending
  selected_cases r x rows h = ground (arith, eq_iff x.order_id order_id)

  -- The selected row has what all rows have, and is of the order.
  pub first_pending-All {κ} :
      (P : PendingRow → Type κ) (r : PendingRow) (rows : List PendingRow)
      → All P rows
      → first_pending env order_id rows ≡ some r
      → P r × (r.order_id ≡ order_id)
  unfolding first_pending
  first_pending-All P r [] all h = cc
  first_pending-All P r (x ∷ rows) all h = elim (selected_cases r x rows h) [
    | inl (same, of_order) ↦ rw same (all.0, of_order)
    | inr below ↦ first_pending-All P r rows all.1 below
  ]

  -- The selected row is in the table.
  pub has-first_pending :
      (r : PendingRow) (rows : List PendingRow)
      → first_pending env order_id rows ≡ some r
      → has pending_key r.event_id rows ≡ true
  unfolding first_pending has
  has-first_pending r [] h = cc
  has-first_pending r (x ∷ rows) h = elim (selected_cases r x rows h) [
    | inl same ↦ ground (arith, eq_iff x.event_id r.event_id, ap pending_key same.0)
    | inr below ↦ ground (arith, has-first_pending r rows below)
  ]
