-- ===== src/Tunnel/Nonce/Linked.antt =====
-- `CfbNonceProcessor` as a codec: the handshake may arrive in pieces, and with data behind it.
use msg.Prelude.{
  ◌<◌, ◌≤◌, ◌≡◌, refl, sym, ap, ap₂, ◌∙◌, subst, transport, inl, inr, true, false, [], ◌∷◌, ◌++◌,
  length, length-append, take-append, drop-append, append_assoc, split-append, flatten, Bool-cases,
  ltb, ltb→lt, ltb→le, lt→ltb, le→ltb, ok, >>=-eq-ok, ◌>>=◌, ok_inj, arith,
}
use msg.Bytes.{ByteVector}
use msg.Crypto.{Crypto}
use msg.Tunnel.Stream.{DataBufferList, stream, IsCodec}
use msg.Tunnel.Cfb.{Direction, encrypt, decrypt}
use msg.Tunnel.Cfb.Linked.{InStep, InStep-encrypt, InStep-decrypt, InStep-nil, InStep-start}
use msg.Tunnel.Nonce.{
  CfbNonce, nonce_size, tag_size, handshake_packet_size, hmac_sha256, derive_iv, init_pack,
  init_unpack, encrypt_all, decrypt_all, pack, unpack, new_cfb_nonce,
}
use msg.Tunnel.Nonce.Handshake.{Handshake, init_pack-Handshake, init_unpack_accepts}

nil_parts : (xs ys : ByteVector) → xs ++ ys ≡ [] → (xs ≡ []) × (ys ≡ [])
nil_parts [] ys e = (refl, e)
nil_parts (x ∷ xs) ys e = absurd (cc)

module _ (C : Crypto) where
  -- Where the two stand: nothing sent, a handshake on its way, or both with one vector.
  pub data Phase (s r : CfbNonce C) (wire owed : ByteVector) : Type 0 where
    idle :
        s.pack_ready ≡ false
        → r.unpack_ready ≡ false
        → r.unpack_handshake_buffer ≡ []
        → wire ≡ []
        → owed ≡ []
        → s.packs.offset ≡ 0
        → r.unpacks.offset ≡ 0
        → Phase s r wire owed
    shaking :
        (tag nonce iv cipher : ByteVector)
        → s.pack_ready ≡ true
        → r.unpack_ready ≡ false
        → length tag ≡ tag_size
        → length nonce ≡ nonce_size
        → hmac_sha256 C r.hmac_key nonce ≡ ok tag
        → derive_iv C r.base_iv nonce ≡ ok iv
        → r.unpack_handshake_buffer ++ wire ≡ (tag ++ nonce) ++ cipher
        → length r.unpack_handshake_buffer < handshake_packet_size
        → InStep s.packs (record { iv = iv; offset = r.unpacks.offset }) cipher owed
        → Phase s r wire owed
    open_ :
        s.pack_ready ≡ true
        → r.unpack_ready ≡ true
        → InStep s.packs r.unpacks wire owed
        → Phase s r wire owed

  pub record Linked (s r : CfbNonce C) (wire owed : ByteVector) : Type 0 where
    pub same_key : s.hmac_key ≡ r.hmac_key
    pub same_iv : s.base_iv ≡ r.base_iv
    pub phase : Phase s r wire owed

  -- The first `pack` sends the handshake and the first ciphertext.
  send_first :
      (s r : CfbNonce C) (x : ByteVector) (s' : CfbNonce C) (out : DataBufferList)
      → s.hmac_key ≡ r.hmac_key
      → s.base_iv ≡ r.base_iv
      → s.pack_ready ≡ false
      → r.unpack_ready ≡ false
      → r.unpack_handshake_buffer ≡ []
      → s.packs.offset ≡ 0
      → r.unpacks.offset ≡ 0
      → pack C s x ≡ ok (s', out)
      → Linked s' r (stream out) x
  unfolding flatten encrypt_all
  send_first s r x s' out k b hs hr hb os or e =
      let ((p, packet), ei, e') = >>=-eq-ok (init_pack C s) _ (sym starts ∙ e) in
      let hand = init_pack-Handshake C s p packet ei in
      let d : Direction = record { iv = hand.iv; offset = s.packs.offset } in
      let sent =
        InStep-encrypt d (record { iv = hand.iv; offset = r.unpacks.offset }) [] [] x
          (InStep-start hand.iv s.packs.offset r.unpacks.offset os or) in
      let p₁ : CfbNonce C = record s {
        packs = d;
        pack_ready = true;
        entropy = (C.rand_bytes nonce_size s.entropy).1;
      } in
      let state : record p₁ { packs = (encrypt x d).0 } ≡ s' =
        ap (λ (q : CfbNonce C). record q { packs = (encrypt x q.packs).0 }) (sym hand.after)
        ∙ (ok_inj e').0 in
      let buffers : (tag_nonce hand) ∷ (encrypt x d).1 ≡ out =
        ap₂ ◌∷◌ (sym hand.packet_eq)
          (ap (λ (q : CfbNonce C). (encrypt x q.packs).1) (sym hand.after))
        ∙ (ok_inj e').1 in
      transport (λ i. Linked (state i) r (stream (buffers i)) x)
        (record {
          same_key = k;
          same_iv = b;
          phase =
              shaking hand.tag hand.nonce hand.iv (stream (encrypt x d).1) refl hr hand.tag_length
                hand.nonce_length (ap (λ key. hmac_sha256 C key hand.nonce) (sym k) ∙ hand.tagged)
                (ap (λ iv. derive_iv C iv hand.nonce) (sym b) ∙ hand.derived)
                (ap (λ h. h ++ ((hand.tag ++ hand.nonce) ++ stream (encrypt x d).1)) hb)
                (let z : length r.unpack_handshake_buffer < handshake_packet_size =
                    omega (arith, ap length hb) in
                  z)
                sent;
        })
    where
      tag_nonce : {p : CfbNonce C} {packet : ByteVector} → Handshake C s p packet → ByteVector
      tag_nonce h = h.tag ++ h.nonce

      starts : pack C s x ≡ (
          init_pack C s >>= λ pair. let (q, out') = encrypt_all C pair.0 x in ok (q, pair.1 ∷ out'))
      starts = unfold pack in rw hs

  send_more :
      (s : CfbNonce C) (x : ByteVector)
      → s.pack_ready ≡ true
      → pack C s x ≡ ok (record s { packs = (encrypt x s.packs).0 }, (encrypt x s.packs).1)
  unfolding pack
  send_more s x h = rw h

  send :
      (s r : CfbNonce C) (wire owed x : ByteVector) (s' : CfbNonce C) (out : DataBufferList)
      → s.hmac_key ≡ r.hmac_key
      → s.base_iv ≡ r.base_iv
      → Phase s r wire owed
      → pack C s x ≡ ok (s', out)
      → Linked s' r (wire ++ stream out) (owed ++ x)
  send s r wire owed x s' out k b (idle hs hr hb hw ho os or) e =
      transport (λ i. Linked s' r (sym hw i ++ stream out) (sym ho i ++ x))
        (send_first s r x s' out k b hs hr hb os or e)
  send s r wire owed x s' out k b (shaking tag nonce iv cipher hs hr ht hn et ei hw small l) e =
      let more = ok_inj (sym (send_more s x hs) ∙ e) in
      let cipher' = stream (encrypt x s.packs).1 in
      transport (λ i. Linked (more.0 i) r (wire ++ stream (more.1 i)) (owed ++ x))
        (record {
          same_key = k;
          same_iv = b;
          phase =
              shaking tag nonce iv (cipher ++ cipher') hs hr ht hn et ei
                (sym (append_assoc r.unpack_handshake_buffer wire cipher')
                  ∙ ap (λ w. w ++ cipher') hw
                  ∙ append_assoc (tag ++ nonce) cipher cipher')
                small
                (InStep-encrypt s.packs (record { iv = iv; offset = r.unpacks.offset }) cipher owed
                  x l);
        })
  send s r wire owed x s' out k b (open_ hs hr l) e =
      let more = ok_inj (sym (send_more s x hs) ∙ e) in
      transport (λ i. Linked (more.0 i) r (wire ++ stream (more.1 i)) (owed ++ x))
        (record {
          same_key = k;
          same_iv = b;
          phase = open_ hs hr (InStep-encrypt s.packs r.unpacks wire owed x l);
        })

  -- Too little for a packet: the bytes are kept.
  wait :
      (r : CfbNonce C) (here : ByteVector)
      → r.unpack_ready ≡ false
      → length (r.unpack_handshake_buffer ++ here) < handshake_packet_size
      → unpack C r here
        ≡ ok (record r { unpack_handshake_buffer = r.unpack_handshake_buffer ++ here }, [])
  unfolding unpack
  wait r here hr h =
      rw (hr, lt→ltb (length (r.unpack_handshake_buffer ++ here)) handshake_packet_size h)

  -- The packet is there whole: the bytes behind it are decrypted at once.
  complete :
      (r : CfbNonce C) (here tag nonce iv rest : ByteVector)
      → r.unpack_ready ≡ false
      → length tag ≡ tag_size
      → length nonce ≡ nonce_size
      → hmac_sha256 C r.hmac_key nonce ≡ ok tag
      → derive_iv C r.base_iv nonce ≡ ok iv
      → r.unpack_handshake_buffer ++ here ≡ (tag ++ nonce) ++ rest
      → length (tag ++ nonce) ≡ handshake_packet_size
      → let d : Direction = record { iv = iv; offset = r.unpacks.offset } in
        unpack C r here
        ≡ ok (
          record r {
            unpacks = (decrypt rest d).0;
            unpack_ready = true;
            unpack_handshake_buffer = [];
          },
          (decrypt rest d).1,
        )
  unfolding unpack decrypt_all init_unpack decrypt
  complete r here tag nonce iv rest hr ht hn et ei cut n =
      let full : handshake_packet_size ≤ length ((tag ++ nonce) ++ rest) =
        omega (arith, length-append (tag ++ nonce) rest) in
      rw (
        hr,
        cut,
        le→ltb (length ((tag ++ nonce) ++ rest)) handshake_packet_size full,
        take-append handshake_packet_size (tag ++ nonce) rest n,
        drop-append handshake_packet_size (tag ++ nonce) rest n,
        init_unpack_accepts C r tag nonce iv ht hn et ei,
      )

  receive :
      (s r : CfbNonce C) (here later owed : ByteVector)
      → s.hmac_key ≡ r.hmac_key
      → s.base_iv ≡ r.base_iv
      → Phase s r (here ++ later) owed
      → (r' : CfbNonce C) × (out : DataBufferList) × (owed' : ByteVector) × (unpack C r here
          ≡ ok (r', out))
        × (owed ≡ stream out ++ owed')
        × Linked s r' later owed'
  unfolding flatten
  receive s r here later owed k b (idle hs hr hb hw ho os or) =
      let (nothing, after) = nil_parts here later hw in
      let empty : r.unpack_handshake_buffer ++ here ≡ [] = ap₂ ◌++◌ hb nothing in
      let r' : CfbNonce C = record r {
        unpack_handshake_buffer = r.unpack_handshake_buffer ++ here;
      } in
      (
        r',
        [],
        owed,
        wait r here hr (omega (arith, ap length empty)),
        refl,
        record { same_key = k; same_iv = b; phase = idle hs hr empty after ho os or },
      )
  receive s r here later owed k b (shaking tag nonce iv cipher hs hr ht hn et ei hw small l) =
      elim (Bool-cases (ltb (length (r.unpack_handshake_buffer ++ here)) handshake_packet_size)) [
        | inl waiting ↦
            let h =
              ltb→lt (length (r.unpack_handshake_buffer ++ here)) handshake_packet_size waiting in
            (
              record r { unpack_handshake_buffer = r.unpack_handshake_buffer ++ here },
              [],
              owed,
              wait r here hr h,
              refl,
              record {
                same_key = k;
                same_iv = b;
                phase =
                    shaking tag nonce iv cipher hs hr ht hn et ei
                      (append_assoc r.unpack_handshake_buffer here later ∙ hw) h l;
              },
            )
        | inr enough ↦
            let buffer = r.unpack_handshake_buffer ++ here in
            let packet_length : length (tag ++ nonce) ≡ handshake_packet_size =
              omega (arith, length-append tag nonce) in
            let (rest, cut, tail) =
              split-append (tag ++ nonce) cipher buffer later
                (sym (append_assoc r.unpack_handshake_buffer here later ∙ hw))
                (omega (arith, ltb→le (length buffer) handshake_packet_size enough)) in
            let d : Direction = record { iv = iv; offset = r.unpacks.offset } in
            let (owed', o, l') =
              InStep-decrypt s.packs d rest later owed
                (subst (λ w. InStep s.packs d w owed) tail l) in
            (
              record r {
                unpacks = (decrypt rest d).0;
                unpack_ready = true;
                unpack_handshake_buffer = [];
              },
              (decrypt rest d).1,
              owed',
              complete r here tag nonce iv rest hr ht hn et ei cut packet_length,
              o,
              record { same_key = k; same_iv = b; phase = open_ hs refl l' },
            )
      ]
  receive s r here later owed k b (open_ hs hr l) =
      let (owed', o, l') = InStep-decrypt s.packs r.unpacks here later owed l in
      (
        record r { unpacks = (decrypt here r.unpacks).0 },
        (decrypt here r.unpacks).1,
        owed',
        unfold unpack decrypt_all in rw hr,
        o,
        record { same_key = k; same_iv = b; phase = open_ hs hr l' },
      )

  settle : (s r : CfbNonce C) (owed : ByteVector) → Phase s r [] owed → owed ≡ []
  settle s r owed (idle hs hr hb hw ho os or) = ho
  settle s r owed (shaking tag nonce iv cipher hs hr ht hn et ei hw small l) = absurd (
      omega (
        arith,
        ap length hw,
        length-append r.unpack_handshake_buffer [],
        length-append (tag ++ nonce) cipher,
        length-append tag nonce,
      ))
  settle s r owed (open_ hs hr l) = InStep-nil s.packs r.unpacks owed l

  pub cfb_nonce-IsCodec : IsCodec (pack C) (unpack C) Linked
  cfb_nonce-IsCodec = record {
    sends =
        λ s r wire owed x s' out l e. send s r wire owed x s' out l.same_key l.same_iv l.phase e;
    receives = λ s r here later owed l. receive s r here later owed l.same_key l.same_iv l.phase;
    settles = λ s r owed l. settle s r owed l.phase;
  }

  -- Processors made from the same vector and key start in step, whatever they will draw.
  pub new_cfb_nonce-Linked :
      (iv key : ByteVector) (e e' : C.Entropy)
      → Linked (new_cfb_nonce C iv key e) (new_cfb_nonce C iv key e') [] []
  unfolding new_cfb_nonce
  new_cfb_nonce-Linked iv key e e' = record {
    same_key = refl;
    same_iv = refl;
    phase = idle refl refl refl refl refl refl refl;
  }
