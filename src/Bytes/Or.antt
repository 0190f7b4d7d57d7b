-- ===== src/Bytes/Or.antt =====
-- `|` of words that share no bit is their sum.
use Prim.Native.Nat.{bit_or, bit_or-bitwise}
use native.Mathlib.Nat.{pow-suc}
use msg.Prelude.{
  ℕ, zero, suc, ◌+◌, ◌*◌, ◌/◌, ◌%◌, ◌^◌, ◌≤◌, ◌<◌, max, ◌≡◌, refl, sym, ◌∙◌, ap, ap₂, arith,
}
use msg.Bytes.Digits.{bitwise-suc}

bit_or_step :
    (a b : ℕ) → let rest = bit_or (a / 2) (b / 2) in bit_or a b ≡ rest * 2 + max (a % 2) (b % 2)
bit_or_step zero b = omega (arith, bit_or-bitwise 0 b, bit_or-bitwise 0 (b / 2))
bit_or_step (suc a) b =
    bit_or-bitwise (suc a) b
    ∙ bitwise-suc (λ y. y) max a b
    ∙ ap (λ (h : ℕ). h * 2 + max (suc a % 2) (b % 2)) (sym (bit_or-bitwise (suc a / 2) (b / 2)))

or_zero_fuel : (n a : ℕ) → a ≤ n → bit_or a 0 ≡ a
or_zero_fuel n zero h = refl
or_zero_fuel zero (suc a) h = absurd (omega arith)
or_zero_fuel (suc n) (suc a) h =
    omega (arith, bit_or_step (suc a) 0, or_zero_fuel n (suc a / 2) (omega arith))

-- `(q << k) | r`, where `r` fits below the shift.
pub bit_or_disjoint : (k q r : ℕ) → r < 2 ^ k → bit_or (q * 2 ^ k) r ≡ q * 2 ^ k + r
bit_or_disjoint zero q r h =
    let e : r ≡ 0 = omega arith in
    ap (bit_or (q * 1)) e ∙ or_zero_fuel (q * 1) (q * 1) (omega arith) ∙ omega arith
bit_or_disjoint (suc k) q r h =
    let e : q * 2 ^ suc k ≡ q * 2 ^ k * 2 = omega (arith, ap (λ (t : ℕ). q * t) (pow-suc 2 k)) in
    let p : r / 2 < 2 ^ k = omega (arith, pow-suc 2 k) in
    let half : q * 2 ^ suc k / 2 ≡ q * 2 ^ k = omega arith in
    let even : q * 2 ^ suc k % 2 ≡ 0 = omega arith in
    bit_or_step (q * 2 ^ suc k) r
    ∙ ap₂ (λ (g d : ℕ). bit_or g (r / 2) * 2 + max d (r % 2)) half even
    ∙ ap (λ (g : ℕ). g * 2 + max 0 (r % 2)) (bit_or_disjoint k q (r / 2) p)
    ∙ omega arith
