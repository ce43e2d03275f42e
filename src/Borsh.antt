-- ===== src/Borsh.antt =====
-- The wire format of events: Borsh and Anchor's event log, both third-party, as far as the program
-- and the observer rely on them.
pub mod Wire
use iron_vault.Prelude.{Bool, List, Option, length, some, ℕ, ◌++◌, ◌<◌, ◌^◌, ◌≡◌, ◌≤◌}
use iron_vault.Prelude.Int.{neg_part, pos_part, ℤ}

-- The serializer of each primitive, and the reader that takes it from the front of the bytes.
pub record Borsh : Type 0 where
  pub put_u16 : ℕ → List ℕ
  pub put_u32 : ℕ → List ℕ
  pub put_u64 : ℕ → List ℕ
  pub put_key : ℕ → List ℕ
  pub put_i64 : ℤ → List ℕ
  pub put_bool : Bool → List ℕ
  pub take_u16 : List ℕ → Option (ℕ × List ℕ)
  pub take_u32 : List ℕ → Option (ℕ × List ℕ)
  pub take_u64 : List ℕ → Option (ℕ × List ℕ)
  pub take_key : List ℕ → Option (ℕ × List ℕ)
  pub take_i64 : List ℕ → Option (ℤ × List ℕ)
  pub take_bool : List ℕ → Option (Bool × List ℕ)

-- The values of `i64`.
abbrev pub IsI64 : ℤ → Type 0
IsI64 z = (pos_part z < 2 ^ 63) × (neg_part z ≤ 2 ^ 63)

-- What is documented of Borsh: a reader takes exactly what the serializer of its type wrote. Keys
-- are 32 bytes, and a `u16` is two.
pub record BorshLaws (b : Borsh) : Type 0 where
  pub u16 : (n : ℕ) (rest : List ℕ) → n < 2 ^ 16 → b.take_u16 (b.put_u16 n ++ rest) ≡ some (n, rest)
  pub u32 : (n : ℕ) (rest : List ℕ) → n < 2 ^ 32 → b.take_u32 (b.put_u32 n ++ rest) ≡ some (n, rest)
  pub u64 : (n : ℕ) (rest : List ℕ) → n < 2 ^ 64 → b.take_u64 (b.put_u64 n ++ rest) ≡ some (n, rest)
  pub key :
      (n : ℕ) (rest : List ℕ) → n < 2 ^ 256 → b.take_key (b.put_key n ++ rest) ≡ some (n, rest)
  pub i64 : (z : ℤ) (rest : List ℕ) → IsI64 z → b.take_i64 (b.put_i64 z ++ rest) ≡ some (z, rest)
  pub bool : (t : Bool) (rest : List ℕ) → b.take_bool (b.put_bool t ++ rest) ≡ some (t, rest)
  pub length_u16 : (n : ℕ) → length (b.put_u16 n) ≡ 2
