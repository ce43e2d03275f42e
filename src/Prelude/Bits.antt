-- ===== src/Prelude/Bits.antt =====
-- The lowest digit of `bit_and`, and single-bit masks.
use Prim.Native.Nat.{digits, bit_and-bitwise, min, ◌/◌, ◌%◌}
use iron_vault.Prelude.{arith, bit_and, refl, suc, zero, ℕ, ◌*◌, ◌+◌, ◌≡◌, ◌≤◌}

-- `bit_and a b` by a recursion on a bound of `a`, halving both.
abbrev masked : ℕ → ℕ → ℕ → ℕ
masked bound a b = digits (λ rest. zero) min bound a b

-- Any bound that is large enough gives the same.
masked-bound : (m n a b : ℕ) → a ≤ m → a ≤ n → masked m a b ≡ masked n a b
masked-bound m n zero b p q = masked_zero m n
  where
    masked_zero : (m n : ℕ) → masked m zero b ≡ masked n zero b
    masked_zero zero zero = refl
    masked_zero zero (suc n) = refl
    masked_zero (suc m) zero = refl
    masked_zero (suc m) (suc n) = refl
masked-bound zero n (suc a) b p q = absurd (omega arith)
masked-bound (suc m) zero (suc a) b p q = absurd (omega arith)
masked-bound (suc m) (suc n) (suc a) b p q =
    omega (arith, masked-bound m n (suc a / 2) (b / 2) (omega arith) (omega arith))

-- `bit_and` digit by digit, the lowest first.
pub bit_and-halves : (a b : ℕ) → bit_and a b ≡ bit_and (a / 2) (b / 2) * 2 + min (a % 2) (b % 2)
bit_and-halves zero b = omega (arith, bit_and-bitwise 0 b, bit_and-bitwise 0 (b / 2))
bit_and-halves (suc a) b = omega (
  arith,
  bit_and-bitwise (suc a) b,
  bit_and-bitwise (suc a / 2) (b / 2),
  masked-bound a (suc a / 2) (suc a / 2) (b / 2) (omega arith) (omega arith),
)

zero_mask_below : (bound a : ℕ) → a ≤ bound → bit_and a 0 ≡ 0
zero_mask_below bound zero h = refl
zero_mask_below zero (suc a) h = absurd (omega arith)
zero_mask_below (suc bound) (suc a) h =
    omega (arith, bit_and-halves (suc a) 0, zero_mask_below bound (suc a / 2) (omega arith))

pub bit_and-zero : (a : ℕ) → bit_and a 0 ≡ 0
bit_and-zero a = zero_mask_below a a (omega arith)

-- The single-bit masks.
pub bit_and-one : (a : ℕ) → bit_and a 1 ≡ a % 2
bit_and-one a = omega (arith, bit_and-halves a 1, bit_and-zero (a / 2))

pub bit_and_two : (a : ℕ) → bit_and a 2 ≡ a / 2 % 2 * 2
bit_and_two a = omega (arith, bit_and-halves a 2, bit_and-one (a / 2))

pub bit_and_four : (a : ℕ) → bit_and a 4 ≡ a / 2 / 2 % 2 * 4
bit_and_four a = omega (arith, bit_and-halves a 4, bit_and_two (a / 2))

pub bit_and_eight : (a : ℕ) → bit_and a 8 ≡ a / 2 / 2 / 2 % 2 * 8
bit_and_eight a = omega (arith, bit_and-halves a 8, bit_and_four (a / 2))

-- If every bit of `b` is in `a`, then so are the bits of the halves, and the lowest bit.
pub contains-halves :
    (a b : ℕ) → bit_and a b ≡ b → (bit_and (a / 2) (b / 2) ≡ b / 2) × (b % 2 ≤ a % 2)
contains-halves a b h = (omega (arith, bit_and-halves a b), omega (arith, bit_and-halves a b))
