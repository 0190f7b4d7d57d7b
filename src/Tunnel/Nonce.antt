-- ===== src/Tunnel/Nonce.antt =====
-- `CfbNonceProcessor` of cfb.cpp: a handshake of a tag and a nonce, then the cipher of `Cfb`, whose
-- loops and `mix` the class repeats word for word.
pub mod Handshake
pub mod Linked
pub mod Authenticated
use msg.Prelude.{
  ℕ, ◌+◌, ◌-◌, ◌^◌, Bool, true, false, not, Option, none, some, List, [], ◌∷◌, ◌++◌, length, take,
  drop, ltb, ◌==◌, if◌then◌else◌, Result, ok, throws, ◌>>=◌, hmac_key_too_large, hmac_failed,
  hmac_mismatch, digest_context_failed, digest_failed, nonce_failed,
}
use msg.Bytes.{ByteVector}
use msg.Bytes.Equal.{same}
use msg.Crypto.{Crypto}
use msg.Tunnel.Stream.{DataBufferList}
use msg.Tunnel.Cfb.{Direction, encrypt, decrypt}

abbrev pub nonce_size : ℕ
nonce_size = 512

abbrev pub tag_size : ℕ
tag_size = 32

abbrev pub handshake_packet_size : ℕ
handshake_packet_size = tag_size + nonce_size

-- `std::numeric_limits<int>::max()`
abbrev pub int_max : ℕ
int_max = 2 ^ 31 - 1

module _ (C : Crypto) where
  open C use {Entropy, rand_bytes, hmac, has_context, sha512}

  checked : ℕ → Option ByteVector → Result ByteVector
  checked size none = throws digest_failed
  checked size (some out) = if length out == size then ok out else throws digest_failed

  -- `digest(input, EVP_sha512, digest_size)`
  unfoldable pub digest : ByteVector → ℕ → Result ByteVector
  unfolding checked
  digest input size =
      if has_context then checked size (sha512 input) else throws digest_context_failed

  checked_tag : Option ByteVector → Result ByteVector
  checked_tag none = throws hmac_failed
  checked_tag (some out) = if length out == tag_size then ok out else throws hmac_failed

  unfoldable pub hmac_sha256 : ByteVector → ByteVector → Result ByteVector
  unfolding checked_tag
  hmac_sha256 key bytes =
      if ltb int_max (length key) then throws hmac_key_too_large else checked_tag (hmac key bytes)

  -- `entropy` is the random generator as this processor meets it.
  pub record CfbNonce : Type 0 where
    pub base_iv : ByteVector
    pub hmac_key : ByteVector
    pub packs : Direction
    pub unpacks : Direction
    pub pack_ready : Bool
    pub unpack_ready : Bool
    pub unpack_handshake_buffer : ByteVector
    pub entropy : Entropy

  unfoldable pub new_cfb_nonce : ByteVector → ByteVector → Entropy → CfbNonce
  new_cfb_nonce iv hmac_key entropy = record {
    base_iv = iv;
    hmac_key = hmac_key;
    packs = record { iv = []; offset = 0 };
    unpacks = record { iv = []; offset = 0 };
    pack_ready = false;
    unpack_ready = false;
    unpack_handshake_buffer = [];
    entropy = entropy;
  }

  unfoldable pub derive_iv : ByteVector → ByteVector → Result ByteVector
  derive_iv base_iv nonce = digest (nonce ++ base_iv) 64

  or_no_nonce : Option ByteVector → Result ByteVector
  or_no_nonce none = throws nonce_failed
  or_no_nonce (some nonce) = ok nonce

  -- `make_nonce`
  unfoldable pub make_nonce : Entropy → Result ByteVector
  unfolding or_no_nonce
  make_nonce e = or_no_nonce (rand_bytes nonce_size e).0

  -- `init_pack`: the handshake buffer that is pushed
  unfoldable pub init_pack : CfbNonce → Result (CfbNonce × ByteVector)
  init_pack p = do
    nonce ← make_nonce p.entropy
    tag ← hmac_sha256 p.hmac_key nonce
    iv ← derive_iv p.base_iv nonce
    ok (
      record p {
        packs = record { iv = iv; offset = p.packs.offset };
        pack_ready = true;
        entropy = (rand_bytes nonce_size p.entropy).1;
      },
      tag ++ nonce,
    )

  -- `init_unpack` on the bytes of a packet
  unfoldable pub init_unpack : CfbNonce → ByteVector → Result CfbNonce
  init_unpack p packet = do
    let nonce = take nonce_size (drop tag_size packet)
    actual ← hmac_sha256 p.hmac_key nonce
    iv ←
        (if same (take tag_size packet) actual
          then derive_iv p.base_iv nonce
          else throws hmac_mismatch)
    ok (record p { unpacks = record { iv = iv; offset = p.unpacks.offset }; unpack_ready = true })

  -- The cipher loop over one direction of the processor, as `pack` and `unpack` end.
  unfoldable pub encrypt_all : CfbNonce → ByteVector → CfbNonce × DataBufferList
  encrypt_all p input = let (d, out) = encrypt input p.packs in (record p { packs = d }, out)

  unfoldable pub decrypt_all : CfbNonce → ByteVector → CfbNonce × DataBufferList
  decrypt_all p input = let (d, out) = decrypt input p.unpacks in (record p { unpacks = d }, out)

  unfoldable pub pack : CfbNonce → ByteVector → Result (CfbNonce × DataBufferList)
  unfolding encrypt_all
  pack p input =
      if not p.pack_ready
      then (do
        (p', handshake) ← init_pack p
        let (p'', out) = encrypt_all p' input
        ok (p'', handshake ∷ out))
      else ok (encrypt_all p input)

  unfoldable pub unpack : CfbNonce → ByteVector → Result (CfbNonce × DataBufferList)
  unpack p input =
      let buffer = p.unpack_handshake_buffer ++ input in
      if not p.unpack_ready
      then if ltb (length buffer) handshake_packet_size
        then ok (record p { unpack_handshake_buffer = buffer }, [])
        else (do
          p' ← init_unpack p (take handshake_packet_size buffer)
          let (p'', out) = decrypt_all p' (drop handshake_packet_size buffer)
          ok (record p'' { unpack_handshake_buffer = [] }, out))
      else ok (decrypt_all p input)
