-- ===== src/Tunnel/Nonce/Handshake.antt =====
-- The handshake packet: what `init_pack` sends is what `init_unpack` accepts, and nothing else is.
use msg.Prelude.{
  ◌≡◌, sym, ap, ◌∙◌, ◌≢◌, true, ◌++◌, length, take, drop, take-append, drop-append, Bool-cases, ok,
  throws, >>=-eq-ok, ok_inj, Option-cases, inl, inr, hmac_mismatch, arith, append-nil, [],
}
use msg.Bytes.{ByteVector}
use msg.Bytes.Equal.{same, same_refl, same→eq}
use msg.Crypto.{Crypto}
use msg.Tunnel.Nonce.{
  CfbNonce, nonce_size, tag_size, hmac_sha256, derive_iv, make_nonce, init_pack, init_unpack,
}

module _ (C : Crypto) where
  open C use {Entropy, rand_bytes, rand_bytes_length, hmac}

  pub hmac_sha256-length :
      (key bytes tag : ByteVector) → hmac_sha256 C key bytes ≡ ok tag → length tag ≡ tag_size
  unfolding hmac_sha256
  hmac_sha256-length key bytes tag h = ground arith

  pub make_nonce-length :
      (e : Entropy) (nonce : ByteVector) → make_nonce C e ≡ ok nonce → length nonce ≡ nonce_size
  unfolding make_nonce
  make_nonce-length e nonce h = elim (Option-cases (rand_bytes nonce_size e).0) [
    | inl failed ↦ absurd (ground arith)
    | inr (n, drawn) ↦ rand_bytes_length nonce_size e nonce (ground arith)
  ]

  -- What a handshake that went out consists of.
  pub record Handshake (p p' : CfbNonce C) (packet : ByteVector) : Type 0 where
    pub nonce : ByteVector
    pub tag : ByteVector
    pub iv : ByteVector
    pub packet_eq : packet ≡ tag ++ nonce
    pub nonce_length : length nonce ≡ nonce_size
    pub tag_length : length tag ≡ tag_size
    pub tagged : hmac_sha256 C p.hmac_key nonce ≡ ok tag
    pub derived : derive_iv C p.base_iv nonce ≡ ok iv
    pub after : p' ≡ record p {
      packs = record { iv = iv; offset = p.packs.offset };
      pack_ready = true;
      entropy = (rand_bytes nonce_size p.entropy).1;
    }

  pub init_pack-Handshake :
      (p p' : CfbNonce C) (packet : ByteVector)
      → init_pack C p ≡ ok (p', packet)
      → Handshake p p' packet
  unfolding init_pack
  init_pack-Handshake p p' packet e =
      let (nonce, en, e₁) = >>=-eq-ok (make_nonce C p.entropy) _ e in
      let (tag, et, e₂) = >>=-eq-ok (hmac_sha256 C p.hmac_key nonce) _ e₁ in
      let (iv, ei, e₃) = >>=-eq-ok (derive_iv C p.base_iv nonce) _ e₂ in
      record {
        nonce = nonce;
        tag = tag;
        iv = iv;
        packet_eq = sym (ok_inj e₃).1;
        nonce_length = make_nonce-length p.entropy nonce en;
        tag_length = hmac_sha256-length p.hmac_key nonce tag et;
        tagged = et;
        derived = ei;
        after = sym (ok_inj e₃).0;
      }

  -- A packet of a tag of 32 bytes and a nonce of 512, where the tag is the receiver's keyed code of
  -- the nonce and the derivation of a vector succeeds, is accepted: the vector is installed and the
  -- receiver is ready.
  pub init_unpack_accepts :
      (r : CfbNonce C) (tag nonce iv : ByteVector)
      → length tag ≡ tag_size
      → length nonce ≡ nonce_size
      → hmac_sha256 C r.hmac_key nonce ≡ ok tag
      → derive_iv C r.base_iv nonce ≡ ok iv
      → init_unpack C r (tag ++ nonce)
        ≡ ok (record r {
          unpacks = record { iv = iv; offset = r.unpacks.offset };
          unpack_ready = true;
        })
  unfolding init_unpack
  init_unpack_accepts r tag nonce iv ht hn et ei =
      let n : take nonce_size (drop tag_size (tag ++ nonce)) ≡ nonce =
        ap (take nonce_size) (drop-append tag_size tag nonce ht ∙ sym (append-nil nonce))
        ∙ take-append nonce_size nonce [] hn in
      let t : take tag_size (tag ++ nonce) ≡ tag = take-append tag_size tag nonce ht in
      rw (n, t, et, same_refl tag, ei)

  -- A packet whose first 32 bytes are not the receiver's keyed code of the 512 bytes behind them,
  -- where that code can be computed, is refused with the mismatch error.
  pub init_unpack_refuses :
      (r : CfbNonce C) (packet tag : ByteVector)
      → hmac_sha256 C r.hmac_key (take nonce_size (drop tag_size packet)) ≡ ok tag
      → take tag_size packet ≢ tag
      → init_unpack C r packet ≡ throws hmac_mismatch
  unfolding init_unpack
  init_unpack_refuses r packet tag et ne = elim (Bool-cases (same (take tag_size packet) tag)) [
    | inl agree ↦ absurd (ne (same→eq (take tag_size packet) tag agree))
    | inr differ ↦ rw (et, differ)
  ]
