-- ===== src/Bytes/BigEndian.antt =====
-- The four bytes of a 32-bit word, the highest first: `write_u32` and `read_u32` of padding.cpp,
-- and the frame header of relay.cpp.
use Prim.Native.Nat.{bit_or}
use msg.Prelude.{ℕ, ◌+◌, ◌*◌, ◌/◌, ◌^◌, ◌<◌, ◌≡◌, ◌∙◌, ap, [], ◌∷◌, arith}
use msg.Bytes.{Byte, ByteVector, IsByte, IsBytes, u8, u32}
use msg.Bytes.Or.{bit_or_disjoint}

-- `(v >> 24) & 0xff` and so on: the cast to a byte is the mask
unfoldable pub word_bytes : ℕ → ByteVector
word_bytes v = u8 (v / 2 ^ 24) ∷ u8 (v / 2 ^ 16) ∷ u8 (v / 2 ^ 8) ∷ u8 v ∷ []

unfoldable pub word_at : Byte → Byte → Byte → Byte → ℕ
word_at a b c d = bit_or (bit_or (bit_or (u32 (a * 2 ^ 24)) (u32 (b * 2 ^ 16))) (u32 (c * 2 ^ 8))) d

word_at_sum :
    (a b c d : ℕ)
    → IsByte a
    → IsByte b
    → IsByte c
    → IsByte d
    → word_at a b c d ≡ a * 2 ^ 24 + b * 2 ^ 16 + c * 2 ^ 8 + d
unfolding word_at
word_at_sum a b c d ha hb hc hd =
    let ea : u32 (a * 2 ^ 24) ≡ a * 2 ^ 24 = omega arith in
    let eb : u32 (b * 2 ^ 16) ≡ b * 2 ^ 16 = omega arith in
    let ec : u32 (c * 2 ^ 8) ≡ c * 2 ^ 8 = omega arith in
    rw (ea, eb, ec, bit_or_disjoint 24 a (b * 2 ^ 16) (omega arith))
      (ap (λ (t : ℕ). bit_or (bit_or t (c * 2 ^ 8)) d)
          (let e : a * 2 ^ 24 + b * 2 ^ 16 ≡ (a * 2 ^ 8 + b) * 2 ^ 16 = omega arith in e)
        ∙ ap (λ (t : ℕ). bit_or t d) (bit_or_disjoint 16 (a * 2 ^ 8 + b) (c * 2 ^ 8) (omega arith))
        ∙ ap (λ (t : ℕ). bit_or t d)
            (let e : (a * 2 ^ 8 + b) * 2 ^ 16 + c * 2 ^ 8 ≡ ((a * 2 ^ 8 + b) * 2 ^ 8 + c) * 2 ^ 8 =
                omega arith in
              e)
        ∙ bit_or_disjoint 8 ((a * 2 ^ 8 + b) * 2 ^ 8 + c) d (omega arith)
        ∙ omega arith)

-- Reading the four bytes of a number below 2 ^ 32, the most significant first, gives it back.
pub word_at-word_bytes :
    (v : ℕ) → v < 2 ^ 32 → word_at (u8 (v / 2 ^ 24)) (u8 (v / 2 ^ 16)) (u8 (v / 2 ^ 8)) (u8 v) ≡ v
word_at-word_bytes v h =
    word_at_sum (u8 (v / 2 ^ 24)) (u8 (v / 2 ^ 16)) (u8 (v / 2 ^ 8)) (u8 v) (omega arith)
      (omega arith) (omega arith) (omega arith)
    ∙ omega arith

pub word_bytes-IsBytes : (v : ℕ) → IsBytes (word_bytes v)
unfolding word_bytes
word_bytes-IsBytes v = omega arith
