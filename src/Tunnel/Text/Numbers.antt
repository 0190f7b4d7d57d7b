-- ===== src/Tunnel/Text/Numbers.antt =====
-- Decimal numbers and the last separator of an address.
use msg.Prelude.{
  ◌-◌, ◌≤◌, ◌<◌, ◌^◌, ◌≡◌, refl, ap, ◌∙◌, true, false, none, some, [], ◌∷◌, ◌++◌, length, ltb, ◌==◌,
  le→ltb, ok, All, arith,
}
use msg.Bytes.{Byte, ByteVector}
use msg.Tunnel.Text.{rfind, is_digit, is_space, skip_spaces, digits_from, unsigned, signed, stoull}

abbrev pub IsDigit : Byte → Type 0
IsDigit c = (48 ≤ c) × (c ≤ 57)

-- A row of digits holds no colon.
pub rfind-digits : (ds : ByteVector) → All IsDigit ds → rfind b':' ds ≡ none
unfolding rfind
rfind-digits [] all = refl
rfind-digits (d ∷ ds) all =
    let no : (d == 58) ≡ false = ground arith in rw (rfind-digits ds all.1, no) refl

-- The last colon is the one before such a row.
pub rfind-append :
    (front ds : ByteVector)
    → rfind b':' ds ≡ none
    → rfind b':' (front ++ b':' ∷ ds) ≡ some (length front)
unfolding rfind
rfind-append [] ds h = rw h refl
rfind-append (c ∷ front) ds h = rw (rfind-append front ds h) refl

skip_spaces-digit : (d : Byte) (ds : ByteVector) → IsDigit d → skip_spaces (d ∷ ds) ≡ d ∷ ds
unfolding skip_spaces
skip_spaces-digit d ds digit =
    let solid : is_space d ≡ false = ground arith in
    ap (λ b. elim b [ true ↦ skip_spaces ds | false ↦ d ∷ ds ]) solid

signed-digit : (d : Byte) (ds : ByteVector) → IsDigit d → signed (d ∷ ds) ≡ unsigned false (d ∷ ds)
unfolding signed
signed-digit d ds digit =
    let no_minus : (d == 45) ≡ false = ground arith in
    let no_plus : (d == 43) ≡ false = ground arith in rw (no_minus, no_plus) refl

unsigned-digits :
    (d : Byte) (ds : ByteVector)
    → IsDigit d
    → digits_from 0 (d ∷ ds) < 2 ^ 64
    → unsigned false (d ∷ ds) ≡ ok (digits_from 0 (d ∷ ds))
unfolding unsigned
unsigned-digits d ds all small =
    let digit : is_digit d ≡ true = ground arith in
    let fits : ltb (2 ^ 64 - 1) (digits_from 0 (d ∷ ds)) ≡ false =
      le→ltb (2 ^ 64 - 1) (digits_from 0 (d ∷ ds)) (omega arith) in
    rw (digit, fits) refl

-- The value of a number without sign that fits into 64 bits.
pub stoull-digits :
    (d : Byte) (ds : ByteVector)
    → IsDigit d
    → digits_from 0 (d ∷ ds) < 2 ^ 64
    → stoull (d ∷ ds) ≡ ok (digits_from 0 (d ∷ ds))
unfolding stoull
stoull-digits d ds digit small =
    ap signed (skip_spaces-digit d ds digit)
    ∙ signed-digit d ds digit
    ∙ unsigned-digits d ds digit small
