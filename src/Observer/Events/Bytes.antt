-- ===== src/Observer/Events/Bytes.antt =====
-- Byte slices: the front, the rest, and equality.
use iron_vault.Observer.Events.Decode.{eq_bytes}
use iron_vault.Prelude.{
  List, [], arith, drop, length, refl, suc, take, true, zero, ℕ, ◌++◌, ◌∷◌, ◌≡◌,
}

pub take-append : (front back : List ℕ) (n : ℕ) → length front ≡ n → take n (front ++ back) ≡ front
take-append [] back zero h = refl
take-append [] back (suc n) h = absurd (omega arith)
take-append (x ∷ front) back zero h = absurd (omega arith)
take-append (x ∷ front) back (suc n) h = cc (take-append front back n (omega arith))

pub drop-append : (front back : List ℕ) (n : ℕ) → length front ≡ n → drop n (front ++ back) ≡ back
drop-append [] back zero h = refl
drop-append [] back (suc n) h = absurd (omega arith)
drop-append (x ∷ front) back zero h = absurd (omega arith)
drop-append (x ∷ front) back (suc n) h = drop-append front back n (omega arith)

pub eq_bytes_refl : (xs : List ℕ) → eq_bytes xs xs ≡ true
eq_bytes_refl [] = refl
eq_bytes_refl (x ∷ xs) = ground (arith, eq_bytes_refl xs)

pub eq_bytes_sound : (xs ys : List ℕ) → eq_bytes xs ys ≡ true → xs ≡ ys
eq_bytes_sound [] [] h = refl
eq_bytes_sound [] (y ∷ ys) h = absurd (ground arith)
eq_bytes_sound (x ∷ xs) [] h = absurd (ground arith)
eq_bytes_sound (x ∷ xs) (y ∷ ys) h = ground (arith, eq_bytes_sound xs ys)
