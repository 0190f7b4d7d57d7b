-- ===== src/Bytes/Digits.antt =====
-- The bit operations mean a recursion on binary digits with fuel: one equation for a digit.
use Prim.Native.Nat.{digits, bitwise}
use native.Mathlib.Nat.{le_refl}
use msg.Prelude.{ℕ, zero, suc, ◌+◌, ◌*◌, ◌/◌, ◌%◌, ◌≤◌, ◌≡◌, refl, arith}

module _ (z : ℕ → ℕ) (f : ℕ → ℕ → ℕ) where
  fuel_irrelevant : (k j p q : ℕ) → p ≤ k → p ≤ j → digits z f k p q ≡ digits z f j p q
  fuel_irrelevant zero zero p q _ _ = refl
  fuel_irrelevant zero (suc j) zero q _ _ = refl
  fuel_irrelevant zero (suc j) (suc p) q small _ = absurd (omega arith)
  fuel_irrelevant (suc k) zero zero q _ _ = refl
  fuel_irrelevant (suc k) zero (suc p) q _ small = absurd (omega arith)
  fuel_irrelevant (suc k) (suc j) zero q _ _ = refl
  fuel_irrelevant (suc k) (suc j) (suc p) q small small' =
      let halves = fuel_irrelevant k j (suc p / 2) (q / 2) (omega arith) (omega arith) in
      omega (arith, halves)

  pub bitwise-suc :
      (p q : ℕ)
      → let last = f (suc p % 2) (q % 2) in
        bitwise z f (suc p) q ≡ bitwise z f (suc p / 2) (q / 2) * 2 + last
  bitwise-suc p q =
      let halves = fuel_irrelevant p (suc p / 2) (suc p / 2) (q / 2) (omega arith) (le_refl _) in
      omega (arith, halves)
