-- ===== src/Types/Outcome.antt =====
-- What a call does that may panic: a failed `expect`, a slice out of range, an underflow.
use canopen_rs.Base.{
  ℕ, zero, suc, [], ◌∷◌, ◌+◌, ◌-◌, ◌≤◌, ◌≡◌, List, ltb, leb, leb_lem, ltb_no, if◌then◌else◌, length,
  slice,
}
use canopen_rs.Types.{Result, ok, err}

pub data Outcome {ℓ} (A : Type ℓ) : Type ℓ where
  done : A → Outcome A
  panicked : Outcome A

infixl 5 ◌>>=◌
abbrev pub ◌>>=◌ {ℓ κ} : {A : Type ℓ} {B : Type κ} → Outcome A → (A → Outcome B) → Outcome B
done a >>= f = f a
panicked >>= f = panicked

-- `Result::expect`
abbrev pub expect {ℓ} : {A : Type ℓ} → Result A → Outcome A
expect (ok a) = done a
expect (err _) = panicked

-- `a - b` on an unsigned integer.
abbrev pub checked_sub : ℕ → ℕ → Outcome ℕ
checked_sub a b = if ltb a b then panicked else done (a - b)

-- `xs[i]`
abbrev pub checked_get {ℓ} : {A : Type ℓ} → List A → ℕ → Outcome A
checked_get [] i = panicked
checked_get (x ∷ xs) zero = done x
checked_get (x ∷ xs) (suc i) = checked_get xs i

-- `&xs[from..from + n]`
abbrev pub checked_slice {ℓ} : {A : Type ℓ} → ℕ → ℕ → List A → Outcome (List A)
checked_slice from n xs = if leb (from + n) (length xs) then done (slice from n xs) else panicked

pub checked_sub_fits : (a b : ℕ) → b ≤ a → checked_sub a b ≡ done (a - b)
checked_sub_fits a b h = rw (ltb_no a b h)

pub checked_slice_fits {ℓ} :
    {A : Type ℓ} (from n : ℕ) (xs : List A)
    → from + n ≤ length xs
    → checked_slice from n xs ≡ done (slice from n xs)
checked_slice_fits from n xs h = rw (leb_lem (from + n) (length xs) h)
