-- ===== src/Tunnel/Nonce/Authenticated.antt =====
-- `unpack` of `CfbNonceProcessor` decrypts nothing before the tag of the handshake has been checked.
use msg.Prelude.{
  ◌<◌, ◌≡◌, sym, ap, ◌∙◌, ◌⊎◌, inl, inr, false, [], ◌++◌, length, take, drop, ltb, ltb→lt,
  Bool-cases, ok, >>=-eq-ok, ok_inj, arith,
}
use msg.Bytes.{ByteVector}
use msg.Bytes.Equal.{same, same→eq}
use msg.Crypto.{Crypto}
use msg.Tunnel.Stream.{DataBufferList}
use msg.Tunnel.Nonce.{
  CfbNonce, nonce_size, tag_size, handshake_packet_size, hmac_sha256, init_unpack, unpack,
}

module _ (C : Crypto) where
  -- The part of a packet that is authenticated.
  abbrev pub nonce_of : ByteVector → ByteVector
  nonce_of buffer = take nonce_size (drop tag_size (take handshake_packet_size buffer))

  -- The tag in front of a buffer is the code of the nonce behind it.
  abbrev pub IsTagged : ByteVector → ByteVector → Type 0
  IsTagged key buffer =
      hmac_sha256 C key (nonce_of buffer) ≡ ok (take tag_size (take handshake_packet_size buffer))

  init_unpack-IsTagged :
      (p p' : CfbNonce C) (buffer : ByteVector)
      → init_unpack C p (take handshake_packet_size buffer) ≡ ok p'
      → IsTagged p.hmac_key buffer
  unfolding init_unpack
  init_unpack-IsTagged p p' buffer e =
      let (actual, ea, e') = >>=-eq-ok (hmac_sha256 C p.hmac_key (nonce_of buffer)) _ e in
      elim (Bool-cases (same (take tag_size (take handshake_packet_size buffer)) actual)) [
        | inl agree ↦
            ea
            ∙ ap ok (sym (same→eq (take tag_size (take handshake_packet_size buffer)) actual agree))
        | inr differ ↦ absurd (ground arith)
      ]

  -- A call of `unpack` before the handshake that returns has either collected bytes of the
  -- handshake packet, which is not whole yet, and put out nothing, or it has found that the tag of
  -- the packet is the keyed code of the packet's nonce.
  pub unpack_authenticated :
      (p p' : CfbNonce C) (input : ByteVector) (out : DataBufferList)
      → p.unpack_ready ≡ false
      → unpack C p input ≡ ok (p', out)
      → let buffer = p.unpack_handshake_buffer ++ input in
        ((length buffer < handshake_packet_size)
          × (out ≡ [])
          × (p' ≡ record p { unpack_handshake_buffer = buffer }))
        ⊎ IsTagged p.hmac_key buffer
  unfolding unpack init_unpack
  unpack_authenticated p p' input out h e =
      let buffer = p.unpack_handshake_buffer ++ input in
      elim (Bool-cases (ltb (length buffer) handshake_packet_size)) [
        | inl short ↦
            let e' = ok_inj (cc (rw (h, short) at e)) in
            inl (ltb→lt (length buffer) handshake_packet_size short, sym e'.1, sym e'.0)
        | inr whole ↦
            let (q, eq, _) =
              >>=-eq-ok (init_unpack C p (take handshake_packet_size buffer)) _
                (rw (h, whole) at e) in
            inr (init_unpack-IsTagged p q buffer eq)
      ]
