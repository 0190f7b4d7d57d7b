-- ===== src/Tunnel/Padding/Header.antt =====
-- The eight bytes before a payload: what `write_u32` puts there `read_u32` finds.
use native.Mathlib.Nat.{add_assoc}
use msg.Prelude.{ℕ, ◌+◌, ◌^◌, ◌<◌, ◌≡◌, refl, [], ◌++◌, length, drop, get_or-drop}
use msg.Bytes.{ByteVector}
use msg.Bytes.BigEndian.{word_bytes, word_at-word_bytes}
use msg.Tunnel.Padding.{write_u32, read_u32}

-- The header of a frame, as `apply_pack` writes it.
unfoldable pub header : ℕ → ℕ → ByteVector
header payload_len pad_len = write_u32 (write_u32 [] payload_len) pad_len

pub length-header : (m n : ℕ) → length (header m n) ≡ 8
unfolding header write_u32 word_bytes
length-header m n = refl

-- Reading at a position reads the rest from there.
pub read_u32-drop : (acc : ByteVector) (p k : ℕ) → read_u32 (drop p acc) k ≡ read_u32 acc (p + k)
unfolding read_u32
read_u32-drop acc p k = rw (
  get_or-drop acc p k 0,
  get_or-drop acc p (k + 1) 0,
  get_or-drop acc p (k + 2) 0,
  get_or-drop acc p (k + 3) 0,
  ← add_assoc p k 1,
  ← add_assoc p k 2,
  ← add_assoc p k 3,
)

pub read-header :
    (m n : ℕ) (rest : ByteVector)
    → m < 2 ^ 32
    → n < 2 ^ 32
    → (read_u32 (header m n ++ rest) 0 ≡ m) × (read_u32 (header m n ++ rest) 4 ≡ n)
unfolding header write_u32 read_u32 word_bytes
read-header m n rest hm hn = (word_at-word_bytes m hm, word_at-word_bytes n hn)
