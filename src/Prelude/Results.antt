-- ===== src/Prelude/Results.antt =====
-- A Go pair `(value, error)`: either the value, with a nil error, or the error.
use mathlib.Core.Path.{◌≡◌, refl, subst}
use mathlib.Core.Logic.{◌⊎◌, inl, inr}

pub data Result {ℓ} (E A : Type ℓ) : Type ℓ where
  ok : A → Result E A
  err : E → Result E A

-- `if err != nil { return err }` after each call.
infixl 5 ◌>>=◌ ◌>>◌
abbrev pub ◌>>=◌ {ℓ} : {E A B : Type ℓ} → Result E A → (A → Result E B) → Result E B
ok a >>= f = f a
err e >>= f = err e

abbrev pub ◌>>◌ {ℓ} : {E A B : Type ℓ} → Result E A → Result E B → Result E B
m >> k = m >>= λ _. k

-- `fmt.Errorf("...: %w", err)`
abbrev pub map_err {ℓ} : {E F A : Type ℓ} → (E → F) → Result E A → Result F A
map_err wrap (ok a) = ok a
map_err wrap (err e) = err (wrap e)

pub Result-cases {ℓ} :
    {E A : Type ℓ} (r : Result E A) → ((a : A) × (r ≡ ok a)) ⊎ ((e : E) × (r ≡ err e))
Result-cases (ok a) = inl (a, refl)
Result-cases (err e) = inr (e, refl)

pub bind_ok :
    {E A B : Type 0} (m : Result E A) (k : A → Result E B) (b : B)
    → (m >>= k) ≡ ok b
    → (a : A) × (m ≡ ok a) × (k a ≡ ok b)
bind_ok (ok a) k b h = (a, refl, h)
bind_ok (err e) k b h = absurd (cc h)

pub map_err_ok :
    {E X A : Type 0} (wrap : E → X) (r : Result E A) (a : A) → map_err wrap r ≡ ok a → r ≡ ok a
map_err_ok wrap (ok a') a h = let same : a' ≡ a = cc h in rw same refl
map_err_ok wrap (err e) a h = absurd (cc h)

-- What a result is, if it is not an error.
pub record Ensures {E A : Type 0} (m : Result E A) (P : A → Type 0) : Type 0 where
  pub holds : (a : A) → m ≡ ok a → P a

pub Ensures-bind :
    {E A B : Type 0} {P : A → Type 0} {Q : B → Type 0} (m : Result E A) (k : A → Result E B)
    → Ensures m P
    → ((a : A) → P a → Ensures (k a) Q)
    → Ensures (m >>= k) Q
Ensures-bind (ok a) k h rest = rest a (h.holds a refl)
Ensures-bind (err e) k h rest = record { holds = λ b e. absurd (cc e) }

pub Ensures-ok : {E A : Type 0} {P : A → Type 0} (a : A) → P a → Ensures {E = E} (ok a) P
Ensures-ok {P = P} a h = record { holds = λ b e. let same : a ≡ b = cc e in subst P same h }
