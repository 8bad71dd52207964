-- ===== src/Repository/Refinement.antt =====
-- When a transaction's steps meet the specification: rules for calls of the driver and for
-- sequences.
pub mod Steps
pub mod Replay
pub mod Process
pub mod Commit
use senior_backend_order_ing.Prelude.{
  ℕ, ◌≡◌, ◌≢◌, refl, String, ◌⊎◌, none, true, Result, ok, err, arith, inl, inr, Bool-cases,
}
use senior_backend_order_ing.Database.{Cause, Db, Environment, Statement}
use senior_backend_order_ing.Repository.Transaction.{
  Operation, Error, Session, Tx, exec, pure, continue,
}

-- Why a call may end with an error: a call of the driver has failed, or the JSONB columns refuse
-- the payload that is offered.
abbrev pub IsExcused : Environment → String → Type 0
IsExcused env offered = ((n : ℕ) × (env.fault n ≡ true)) ⊎ (env.jsonb offered ≡ none)

module _ (env : Environment) (offered : String) (durable : Db) (now : ℕ) where
  -- The session is inside a transaction that sees the tables `db`; nothing of it is committed.
  pub record IsAt (db : Db) (s : Session) : Type 0 where
    pub working : s.working ≡ db
    pub durable_kept : s.durable ≡ durable
    pub now_kept : s.now ≡ now

  abbrev MeetsSpec : {A : Type 0} → A → Db → Result Error A × Session → Type 0
  MeetsSpec a db (ok x, s) = (x ≡ a) × IsAt db s
  MeetsSpec a db (err e, s) = (s.durable ≡ durable) × (e ≢ Error.diverges) × IsExcused env offered

  -- A call returns `a` and leaves the tables `db`, or an error that is excused. Either way nothing
  -- is committed.
  pub record Meets {A : Type 0} (a : A) (db : Db) (r : Result Error A × Session) : Type 0 where
    pub spec : MeetsSpec a db r

  pub exec-Meets :
      {A : Type 0} {a : A} {db db' : Db} (op : Operation) (statement : Statement A) {s : Session}
      → IsAt db s
      → statement db ≡ ok (a, db')
      → Meets a db' (exec env op statement s)
  unfolding exec
  exec-Meets {a = a} {db = db} {db' = db'} op statement {s} at h =
      elim (Bool-cases (env.fault s.calls)) [
        | inl broken ↦ record { spec = rw broken (at.durable_kept, λ e. cc, inl (s.calls, broken)) }
        | inr fine ↦ record {
          spec =
              rw (fine, at.working, h)
                (
                  refl,
                  record { working = refl; durable_kept = at.durable_kept; now_kept = at.now_kept },
                );
        }
      ]

  -- A statement that the server refuses for the payload is excused, whatever is specified.
  pub exec-Meets_refused :
      {A : Type 0} {a : A} {db db' : Db} (op : Operation) (statement : Statement A) {s : Session}
      → IsAt db s
      → env.jsonb offered ≡ none
      → statement db ≡ err Cause.invalid_json
      → Meets a db' (exec env op statement s)
  unfolding exec
  exec-Meets_refused op statement {s} at refused h = elim (Bool-cases (env.fault s.calls)) [
    | inl broken ↦ record { spec = rw broken (at.durable_kept, λ e. cc, inr refused) }
    | inr fine ↦ record { spec = rw (fine, at.working, h) (at.durable_kept, λ e. cc, inr refused) }
  ]

  pub pure-Meets : {A : Type 0} (a : A) {db : Db} {s : Session} → IsAt db s → Meets a db (pure a s)
  pure-Meets a at = record { spec = (refl, at) }

  pub continue-Meets :
      {A B : Type 0} {a : A} {b : B} {db db' : Db} (f : A → Tx B) (r : Result Error A × Session)
      → Meets a db r
      → ((s : Session) → IsAt db s → Meets b db' (f a s))
      → Meets b db' (continue f r)
  continue-Meets f (ok x, s) m k = rw m.spec.0 (k s m.spec.1)
  continue-Meets f (err e, s) m k = record { spec = m.spec }
