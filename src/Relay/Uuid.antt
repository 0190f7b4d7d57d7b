-- ===== src/Relay/Uuid.antt =====
-- `generate_uuid` of relay.cpp, on the two words that the engine gives.
use msg.Prelude.{
  ℕ, zero, suc, ◌+◌, ◌-◌, ◌*◌, ◌/◌, ◌%◌, ◌^◌, ◌≡◌, refl, ap, [], ◌∷◌, ◌++◌, length, get_or, ltb,
  if◌then◌else◌, arith,
}
use msg.Bytes.{Byte, ByteVector}

-- A digit of `%x`
abbrev pub hex_digit : ℕ → Byte
hex_digit n = if ltb n 10 then b'0' + n else b'a' + (n - 10)

-- `%0wx`, for a value that has no more than `w` digits.
abbrev pub hex : ℕ → ℕ → ByteVector
hex zero n = []
hex (suc w) n = hex w (n / 16) ++ hex_digit (n % 16) ∷ []

-- `hi &= ~0xF000; hi |= 0x4000`
abbrev pub with_version : ℕ → ℕ
with_version hi = hi / 2 ^ 16 * 2 ^ 16 + 4 * 2 ^ 12 + hi % 2 ^ 12

-- `lo &= ~0xC000000000000000; lo |= 0x8000000000000000`
abbrev pub with_variant : ℕ → ℕ
with_variant lo = 2 ^ 63 + lo % 2 ^ 62

unfoldable pub generate_uuid : ℕ → ℕ → ByteVector
generate_uuid hi lo =
    let h = with_version hi in
    let l = with_variant lo in
    hex 8 (h / 2 ^ 32 % 2 ^ 32)
    ++ b'-' ∷ hex 4 (h / 2 ^ 16 % 2 ^ 16)
    ++ b'-' ∷ hex 4 (h % 2 ^ 16)
    ++ b'-' ∷ hex 4 (l / 2 ^ 48 % 2 ^ 16)
    ++ b'-' ∷ hex 12 (l % 2 ^ 48)

-- Four groups of digits behind hyphens, the version 4 and a variant whose first two bits are 10.
abbrev pub IsVersion4 : ByteVector → ℕ → Type 0
IsVersion4 uuid bits =
    (length uuid ≡ 36)
    × ((get_or uuid 8 0 ≡ b'-')
        × ((get_or uuid 13 0 ≡ b'-')
            × ((get_or uuid 18 0 ≡ b'-')
                × ((get_or uuid 23 0 ≡ b'-')
                    × ((get_or uuid 14 0 ≡ b'4') × (get_or uuid 19 0 ≡ hex_digit (8 + bits)))))))

-- Whatever the engine gives, the identifier has the 36 bytes that the protocol cuts at, with its
-- hyphens, the version and the variant in their places; the variant's digit is one of 8, 9, a and b.
pub generate_uuid-IsVersion4 : (hi lo : ℕ) → IsVersion4 (generate_uuid hi lo) (lo / 2 ^ 60 % 4)
unfolding generate_uuid
generate_uuid-IsVersion4 hi lo =
    let version : with_version hi % 2 ^ 16 / 16 / 16 / 16 % 16 ≡ 4 = omega arith in
    let variant : with_variant lo / 2 ^ 48 % 2 ^ 16 / 16 / 16 / 16 % 16 ≡ 8 + lo / 2 ^ 60 % 4 =
      omega arith in
    (refl, (refl, (refl, (refl, (refl, (ap hex_digit version, ap hex_digit variant))))))
