-- ===== src/Bytes.antt =====
-- Bytes and big-endian words: byte_types.hpp, and the shifts by which the padding processor and
-- the relay write and read a length.
pub mod Digits
pub mod Or
pub mod Xor
pub mod BigEndian
pub mod Equal
pub mod Table
use msg.Prelude.{ℕ, ◌%◌, ◌^◌, ◌<◌, List, All}

-- `Byte`, a value below 256
abbrev pub Byte : Type 0
Byte = ℕ

-- `ByteVector` and `ByteSpan`
abbrev pub ByteVector : Type 0
ByteVector = List Byte

abbrev pub IsByte : ℕ → Type 0
IsByte b = b < 256

abbrev pub IsBytes : List ℕ → Type 0
IsBytes = All IsByte

-- `static_cast` to the unsigned types, and the wrap of their arithmetic
abbrev pub u8 : ℕ → ℕ
u8 n = n % 2 ^ 8

abbrev pub u16 : ℕ → ℕ
u16 n = n % 2 ^ 16

abbrev pub u32 : ℕ → ℕ
u32 n = n % 2 ^ 32

abbrev pub u64 : ℕ → ℕ
u64 n = n % 2 ^ 64
