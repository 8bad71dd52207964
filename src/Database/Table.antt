-- ===== src/Database/Table.antt =====
-- A table as the list of its rows, the newest first, with a text column `key` that the statements
-- select by.
use mathlib.Core.Path.{subst}
use senior_backend_order_ing.Prelude.{
  ◌≤◌, ◌<◌, String, ◌≡◌, Bool, true, false, Option, none, some, List, [], ◌∷◌, arith, str_eq,
  eq_iff, if◌then◌else◌, length, refl, inl, inr, Bool-cases,
}

-- `WHERE` conditions are Boolean; the predicate `P` holds of every row.
abbrev pub All {ℓ κ} : {A : Type ℓ} → (A → Type κ) → List A → Type κ
All P [] = Unit
All P (x ∷ xs) = P x × All P xs

pub All-trivial {ℓ} : {A : Type ℓ} (xs : List A) → All (λ (x : A). Unit {0}) xs
All-trivial [] = tt
All-trivial (x ∷ xs) = (tt, All-trivial xs)

module _ {ℓ} {Row : Type ℓ} (key : Row → String) where
  -- Is there a row with this key?
  unfoldable pub has : String → List Row → Bool
  has k [] = false
  has k (r ∷ rs) = if str_eq (key r) k then true else has k rs

  -- `SELECT ... WHERE key = k`
  unfoldable pub find_by : String → List Row → Option Row
  find_by k [] = none
  find_by k (r ∷ rs) = if str_eq (key r) k then some r else find_by k rs

  -- `UPDATE ... SET f WHERE key = k`
  unfoldable pub update_by : String → (Row → Row) → List Row → List Row
  update_by k f [] = []
  update_by k f (r ∷ rs) = (if str_eq (key r) k then f r else r) ∷ update_by k f rs

  -- `DELETE ... WHERE key = k`
  unfoldable pub delete_by : String → List Row → List Row
  delete_by k [] = []
  delete_by k (r ∷ rs) = let rest = delete_by k rs in if str_eq (key r) k then rest else r ∷ rest

  pub has-delete_by :
      (k j : String) (rows : List Row)
      → has j (delete_by k rows) ≡ (if str_eq k j then false else has j rows)
  unfolding has delete_by
  has-delete_by k j [] = ground arith
  has-delete_by k j (r ∷ rs) =
      ground (arith, has-delete_by k j rs, eq_iff (key r) k, eq_iff (key r) j, eq_iff k j)

  pub length-delete_by_le : (k : String) (rows : List Row) → length (delete_by k rows) ≤ length rows
  unfolding delete_by
  length-delete_by_le k [] = omega arith
  length-delete_by_le k (r ∷ rs) = ground (arith, length-delete_by_le k rs)

  pub length-delete_by :
      (k : String) (rows : List Row) → has k rows ≡ true → length (delete_by k rows) < length rows
  unfolding has delete_by
  length-delete_by k [] h = absurd (ground arith)
  length-delete_by k (r ∷ rs) h = ground (arith, length-delete_by k rs, length-delete_by_le k rs)

  -- An update that keeps the key of a row keeps the keys of the table.
  pub has-update_by :
      (k j : String) (f : Row → Row) (rows : List Row)
      → ((r : Row) → key (f r) ≡ key r)
      → has j (update_by k f rows) ≡ has j rows
  unfolding has update_by
  has-update_by k j f [] h = refl
  has-update_by k j f (r ∷ rs) h = ground (arith, has-update_by k j f rs h, h r)

  pub find_by-update_by :
      (k j : String) (f : Row → Row) (rows : List Row)
      → ((r : Row) → key (f r) ≡ key r)
      → find_by j (update_by k f rows) ≡ (
          if str_eq k j
          then elim (find_by j rows) [ none ↦ none | some r ↦ some (f r) ]
          else find_by j rows)
  unfolding find_by update_by
  find_by-update_by k j f [] h = ground arith
  find_by-update_by k j f (r ∷ rs) h =
      ground
        (arith, find_by-update_by k j f rs h, h r, eq_iff (key r) k, eq_iff (key r) j, eq_iff k j)

  pub has_of_find_by :
      (k : String) (r : Row) (rows : List Row) → find_by k rows ≡ some r → has k rows ≡ true
  unfolding has find_by
  has_of_find_by k r [] h = ground arith
  has_of_find_by k r (x ∷ xs) h = ground (arith, has_of_find_by k r xs)

  pub not-has_of_find_by :
      (k : String) (rows : List Row) → find_by k rows ≡ none → has k rows ≡ false
  unfolding has find_by
  not-has_of_find_by k [] h = refl
  not-has_of_find_by k (x ∷ xs) h = ground (arith, not-has_of_find_by k xs)

  pub find_by_of_not-has :
      (k : String) (rows : List Row) → has k rows ≡ false → find_by k rows ≡ none
  unfolding has find_by
  find_by_of_not-has k [] h = refl
  find_by_of_not-has k (x ∷ xs) h = ground (arith, find_by_of_not-has k xs)

  pub All-delete_by {κ} :
      (P : Row → Type κ) (k : String) (rows : List Row) → All P rows → All P (delete_by k rows)
  unfolding delete_by
  All-delete_by P k [] h = tt
  All-delete_by P k (r ∷ rs) h = elim (Bool-cases (str_eq (key r) k)) [
    | inl gone ↦ rw gone (All-delete_by P k rs h.1)
    | inr kept ↦ rw kept (h.0, All-delete_by P k rs h.1)
  ]

  pub All-find_by {κ} :
      (P : Row → Type κ) (k : String) (r : Row) (rows : List Row)
      → All P rows
      → find_by k rows ≡ some r
      → P r
  unfolding find_by
  All-find_by P k r [] all h = cc
  All-find_by P k r (x ∷ xs) all h = elim (Bool-cases (str_eq (key x) k)) [
    | inl here ↦ (let same : x ≡ r = ground arith in subst P same all.0)
    | inr below ↦ All-find_by P k r xs all.1 (rw below at h)
  ]

  pub All-update_by {κ} :
      (P : Row → Type κ) (k : String) (f : Row → Row) (rows : List Row)
      → ((r : Row) → P (f r))
      → All P rows
      → All P (update_by k f rows)
  unfolding update_by
  All-update_by P k f [] keep all = tt
  All-update_by P k f (x ∷ xs) keep all = elim (Bool-cases (str_eq (key x) k)) [
    | inl here ↦ rw here (keep x, All-update_by P k f xs keep all.1)
    | inr other ↦ rw other (all.0, All-update_by P k f xs keep all.1)
  ]
