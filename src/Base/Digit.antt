-- ===== src/Base/Digit.antt =====
-- The lowest binary digit of the native `bit_and` and `bit_or`.
use Prim.Native.Nat.{ℕ, zero, suc, ◌+◌, ◌*◌, ◌/◌, ◌%◌, ◌≤◌, min, max, bit_and, bit_or}
use Prim.Native.Nat.{digits, bit_and-bitwise, bit_or-bitwise}
use mathlib.Core.Path.{◌≡◌, refl}
use native.Mathlib.Omega.{arith}

-- Any fuel that covers the first number reads the same digits.
enough :
    (rest : ℕ → ℕ) (op : ℕ → ℕ → ℕ) (j k a b : ℕ)
    → a ≤ j
    → a ≤ k
    → digits rest op j a b ≡ digits rest op k a b
enough rest op zero zero a b p q = refl
enough rest op zero (suc k) zero b p q = refl
enough rest op zero (suc k) (suc a) b p q = absurd (omega arith)
enough rest op (suc j) zero zero b p q = refl
enough rest op (suc j) zero (suc a) b p q = absurd (omega arith)
enough rest op (suc j) (suc k) zero b p q = refl
enough rest op (suc j) (suc k) (suc a) b p q =
    let below = enough rest op j k (suc a / 2) (b / 2) (omega arith) (omega arith) in rw below

pub bit_and_digit : (a b : ℕ) → bit_and a b ≡ bit_and (a / 2) (b / 2) * 2 + min (a % 2) (b % 2)
bit_and_digit zero b = omega (arith, bit_and-bitwise 0 b, bit_and-bitwise 0 (b / 2))
bit_and_digit (suc a) b = omega (
  arith,
  bit_and-bitwise (suc a) b,
  bit_and-bitwise (suc a / 2) (b / 2),
  enough (λ y. 0) min a (suc a / 2) (suc a / 2) (b / 2) (omega arith) (omega arith),
)

pub bit_or_digit : (a b : ℕ) → bit_or a b ≡ bit_or (a / 2) (b / 2) * 2 + max (a % 2) (b % 2)
bit_or_digit zero b = omega (arith, bit_or-bitwise 0 b, bit_or-bitwise 0 (b / 2))
bit_or_digit (suc a) b = omega (
  arith,
  bit_or-bitwise (suc a) b,
  bit_or-bitwise (suc a / 2) (b / 2),
  enough (λ y. y) max a (suc a / 2) (suc a / 2) (b / 2) (omega arith) (omega arith),
)
