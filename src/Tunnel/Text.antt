-- ===== src/Tunnel/Text.antt =====
-- The string operations that tunnel.cpp and relay.cpp use, over byte sequences.
pub mod Numbers
use Prim.Native.Char.{code}
use Prim.Native.String.{String}
use msg.Prelude.{
  ℕ, suc, ◌+◌, ◌-◌, ◌*◌, ◌%◌, ◌^◌, Bool, true, false, ◌&&◌, ◌||◌, Option, none, some, List, [], ◌∷◌,
  ◌++◌, ltb, leb, ◌==◌, if◌then◌else◌, Result, ok, throws, invalid_argument, out_of_range,
}
use mathlib.Core.Option
use msg.Bytes.{ByteVector, Byte}

-- The bytes of an ASCII literal.
abbrev pub codes : String → ByteVector
codes String.[] = []
codes (String.◌∷◌ c s) = code c ∷ codes s

-- `find(c)`: the first position of a character, `none` for `npos`
unfoldable pub find : Byte → ByteVector → Option ℕ
find c [] = none
find c (x ∷ xs) = if x == c then some 0 else Option.map suc (find c xs)

-- `rfind(c)`: the last position
unfoldable pub rfind : Byte → ByteVector → Option ℕ
rfind c [] = none
rfind c (x ∷ xs) = elim (rfind c xs) [
  | some i ↦ some (suc i)
  | none ↦ if x == c then some 0 else none
]

-- `std::getline` over the rest of a stream: the item so far, and whether this call has read a
-- character; at the end of the stream a call that has read none fails.
unfoldable pub getlines : Byte → ByteVector → Bool → ByteVector → List ByteVector
getlines delim item true [] = item ∷ []
getlines delim item false [] = []
getlines delim item read (c ∷ cs) = elim (c == delim) [
  | true ↦ item ∷ getlines delim [] false cs
  | false ↦ getlines delim (item ++ c ∷ []) true cs
]

-- `split`
unfoldable pub split : ByteVector → Byte → List ByteVector
unfolding getlines
split s delim = getlines delim [] false s

-- `isspace` in the C locale
abbrev pub is_space : Byte → Bool
is_space c = c == 32 || (leb 9 c && leb c 13)

abbrev pub is_digit : Byte → Bool
is_digit c = leb b'0' c && leb c b'9'

unfoldable pub skip_spaces : ByteVector → ByteVector
skip_spaces [] = []
skip_spaces (c ∷ cs) = elim (is_space c) [ true ↦ skip_spaces cs | false ↦ c ∷ cs ]

-- The value of the digits in front, on top of `acc`.
unfoldable pub digits_from : ℕ → ByteVector → ℕ
digits_from acc [] = acc
digits_from acc (c ∷ cs) = elim (is_digit c) [
  | true ↦ digits_from (acc * 10 + (c - b'0')) cs
  | false ↦ acc
]

abbrev starts_with_digit : ByteVector → Bool
starts_with_digit [] = false
starts_with_digit (c ∷ cs) = is_digit c

-- The number after the sign, which is negated in 64 bits behind a minus.
unsigned : Bool → ByteVector → Result ℕ
unsigned minus s =
    let n = digits_from 0 s in
    if starts_with_digit s
    then if ltb (2 ^ 64 - 1) n
      then throws out_of_range
      else ok (if minus then (2 ^ 64 - n) % 2 ^ 64 else n)
    else throws invalid_argument

signed : ByteVector → Result ℕ
unfolding unsigned
signed [] = throws invalid_argument
signed (c ∷ cs) =
    if c == b'-'
    then unsigned true cs
    else if c == b'+'
    then unsigned false cs
    else unsigned false (c ∷ cs)

-- `std::stoull`, and `std::stoul` where `unsigned long` has 64 bits. What stands behind the digits
-- is ignored.
unfoldable pub stoull : ByteVector → Result ℕ
unfolding skip_spaces digits_from signed
stoull s = signed (skip_spaces s)
