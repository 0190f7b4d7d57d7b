-- ===== src/Tunnel/Cfb.antt =====
-- `CfbProcessor` of cfb.cpp, and the cipher loops that `CfbNonceProcessor` repeats.
pub mod Loops
pub mod Linked
use msg.Prelude.{
  ℕ, zero, suc, ◌+◌, ◌%◌, bit_xor, List, [], ◌∷◌, ◌++◌, length, get_or, set, ltb, if◌then◌else◌,
  Result, ok,
}
use msg.Bytes.{Byte, ByteVector, u8, u64}
use msg.Tunnel.Stream.{DataBufferList}

-- `mix`: two writes, the second to the position that follows round the end
unfoldable pub mix : Byte → ByteVector → ℕ → ByteVector
mix cipher iv pos =
    let iv' = set iv pos (u8 (get_or iv pos 0 + cipher)) in
    let next = (pos + 1) % length iv' in set iv' next (bit_xor (get_or iv' next 0) cipher)

-- What a cipher loop leaves behind: the buffer and the mixed vector.
pub record Ciphered : Type 0 where
  pub text : ByteVector
  pub iv : ByteVector

-- The loop of `encrypt` from index `i` over the bytes that are left.
unfoldable pub encrypt_loop : ByteVector → ByteVector → ℕ → ℕ → Ciphered
encrypt_loop [] iv offset i = record { text = []; iv = iv }
encrypt_loop (b ∷ bs) iv offset i =
    let pos = u64 (offset + i) % length iv in
    let cipher = bit_xor b (get_or iv pos 0) in
    let rest = encrypt_loop bs (mix cipher iv pos) offset (i + 1) in
    record { text = cipher ∷ rest.text; iv = rest.iv }

unfoldable pub decrypt_loop : ByteVector → ByteVector → ℕ → ℕ → Ciphered
decrypt_loop [] iv offset i = record { text = []; iv = iv }
decrypt_loop (b ∷ bs) iv offset i =
    let pos = u64 (offset + i) % length iv in
    let plain = bit_xor b (get_or iv pos 0) in
    let rest = decrypt_loop bs (mix b iv pos) offset (i + 1) in
    record { text = plain ∷ rest.text; iv = rest.iv }

-- One direction: `pack_iv_` and `pack_offset_`, or `unpack_iv_` and `unpack_offset_`.
pub record Direction : Type 0 where
  pub iv : ByteVector
  pub offset : ℕ

-- `encrypt`: the direction's new state, and the one buffer that is pushed.
unfoldable pub encrypt : ByteVector → Direction → Direction × DataBufferList
encrypt input d =
    let c = encrypt_loop input d.iv d.offset 0 in
    (record { iv = c.iv; offset = u64 (d.offset + length input) }, c.text ∷ [])

unfoldable pub decrypt : ByteVector → Direction → Direction × DataBufferList
decrypt input d =
    let c = decrypt_loop input d.iv d.offset 0 in
    (record { iv = c.iv; offset = u64 (d.offset + length input) }, c.text ∷ [])

pub record Cfb : Type 0 where
  pub packs : Direction
  pub unpacks : Direction

-- The constructor's loop `while (pack_iv_.size() < 8)`, with the rounds left for fuel: it pushes
-- its own size each time, so that eight rounds are enough.
unfoldable pub extend_iv : ℕ → ByteVector → ByteVector
extend_iv zero iv = iv
extend_iv (suc n) iv =
    let longer = extend_iv n (iv ++ u8 (length iv) ∷ []) in if ltb (length iv) 8 then longer else iv

unfoldable pub new_cfb : ByteVector → Cfb
new_cfb key = record {
  packs = record { iv = extend_iv 8 key; offset = 0 };
  unpacks = record { iv = extend_iv 8 key; offset = 0 };
}

unfoldable pub pack : Cfb → ByteVector → Result (Cfb × DataBufferList)
pack c input = let (d, out) = encrypt input c.packs in ok (record c { packs = d }, out)

unfoldable pub unpack : Cfb → ByteVector → Result (Cfb × DataBufferList)
unpack c input = let (d, out) = decrypt input c.unpacks in ok (record c { unpacks = d }, out)
