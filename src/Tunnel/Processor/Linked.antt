-- ===== src/Tunnel/Processor/Linked.antt =====
-- Each processor of the hierarchy is a codec.
use msg.Prelude.{
  ◌≡◌, refl, sym, ap, ap₂, ◌∙◌, transport, subst, [], ◌∷◌, ◌++◌, flatten, append-nil, Result, ok,
  ◌>>=◌, >>=-eq-ok, ok_inj,
}
use msg.Bytes.{ByteVector}
use msg.Random.{Random}
use msg.Crypto.{Crypto}
use msg.Tunnel.Stream.{DataBufferList, stream, Transform, IsCodec}
use msg.Tunnel.Cfb.Linked as CfbLinked
use msg.Tunnel.Nonce.Linked as NonceLinked
use msg.Tunnel.Padding.Linked as PaddingLinked
use msg.Tunnel.Processor.{Codec, identity, cfb, cfb_nonce, padding, copy, pack, unpack}

abbrev rewrap : {P Q : Type 0} → (P → Q) → Result (P × DataBufferList) → Result (Q × DataBufferList)
rewrap wrap m = m >>= λ r. ok (wrap r.0, r.1)

-- A codec stays one under a constructor of a larger type.
module _ {P Q : Type 0} {pack unpack : Transform P}
    {Linked : P → P → ByteVector → ByteVector → Type 0} (wrap : P → Q)
    (codec : IsCodec pack unpack Linked) where
  wrapped_sends :
      (s r : P) (wire owed x : ByteVector) (s' : Q) (out : DataBufferList)
      → Linked s r wire owed
      → rewrap wrap (pack s x) ≡ ok (s', out)
      → (t : P) × (wrap t ≡ s') × Linked t r (wire ++ stream out) (owed ++ x)
  wrapped_sends s r wire owed x s' out l e =
      let ((t, bs), p, e') = >>=-eq-ok (pack s x) _ e in
      (
        t,
        (ok_inj e').0,
        subst (λ b. Linked t r (wire ++ stream b) (owed ++ x)) (ok_inj e').1
            (codec.sends s r wire owed x t bs l p),
      )

  wrapped_receives :
      (s r : P) (here later owed : ByteVector)
      → Linked s r (here ++ later) owed
      → (t : P) × (out : DataBufferList) × (owed' : ByteVector) × (rewrap wrap (unpack r here)
          ≡ ok (wrap t, out))
        × (owed ≡ stream out ++ owed')
        × Linked s t later owed'
  wrapped_receives s r here later owed l =
      let (t, out, owed', p, o, l') = codec.receives s r here later owed l in
      (t, out, owed', rw p, o, l')

module _ (R : Random) (C : Crypto) where
  abbrev pub Linked : Codec R C → Codec R C → ByteVector → ByteVector → Type 0
  Linked identity identity wire owed = wire ≡ owed
  Linked (cfb s) (cfb r) wire owed = CfbLinked.Linked s r wire owed
  Linked (cfb_nonce s) (cfb_nonce r) wire owed = NonceLinked.Linked C s r wire owed
  Linked (padding s) (padding r) wire owed = PaddingLinked.Linked R s r wire owed
  Linked _ _ wire owed = ⊥

  sends :
      (s r : Codec R C) (wire owed x : ByteVector) (s' : Codec R C) (out : DataBufferList)
      → Linked s r wire owed
      → pack R C s x ≡ ok (s', out)
      → Linked s' r (wire ++ stream out) (owed ++ x)
  unfolding pack copy flatten
  sends identity identity wire owed x s' out l e =
      transport
        (λ i. Linked ((ok_inj e).0 i) identity (wire ++ stream ((ok_inj e).1 i)) (owed ++ x))
        (ap₂ ◌++◌ l (append-nil x))
  sends (cfb s) (cfb r) wire owed x s' out l e =
      let (t, q, l') = wrapped_sends cfb CfbLinked.cfb-IsCodec s r wire owed x s' out l e in
      subst (λ c. Linked c (cfb r) (wire ++ stream out) (owed ++ x)) q l'
  sends (cfb_nonce s) (cfb_nonce r) wire owed x s' out l e =
      let (t, q, l') =
        wrapped_sends cfb_nonce (NonceLinked.cfb_nonce-IsCodec C) s r wire owed x s' out l e in
      subst (λ c. Linked c (cfb_nonce r) (wire ++ stream out) (owed ++ x)) q l'
  sends (padding s) (padding r) wire owed x s' out l e =
      let (t, q, l') =
        wrapped_sends padding (PaddingLinked.padding-IsCodec R) s r wire owed x s' out l e in
      subst (λ c. Linked c (padding r) (wire ++ stream out) (owed ++ x)) q l'
  sends _ _ wire owed x s' out l e = absurd l

  receives :
      (s r : Codec R C) (here later owed : ByteVector)
      → Linked s r (here ++ later) owed
      → (r' : Codec R C) × (out : DataBufferList) × (owed' : ByteVector) × (unpack R C r here
          ≡ ok (r', out))
        × (owed ≡ stream out ++ owed')
        × Linked s r' later owed'
  unfolding unpack copy flatten
  receives identity identity here later owed l =
      (identity, here ∷ [], later, refl, sym l ∙ ap (λ h. h ++ later) (sym (append-nil here)), refl)
  receives (cfb s) (cfb r) here later owed l =
      let (t, out, owed', p, o, l') =
        wrapped_receives cfb CfbLinked.cfb-IsCodec s r here later owed l in
      (cfb t, out, owed', p, o, l')
  receives (cfb_nonce s) (cfb_nonce r) here later owed l =
      let (t, out, owed', p, o, l') =
        wrapped_receives cfb_nonce (NonceLinked.cfb_nonce-IsCodec C) s r here later owed l in
      (cfb_nonce t, out, owed', p, o, l')
  receives (padding s) (padding r) here later owed l =
      let (t, out, owed', p, o, l') =
        wrapped_receives padding (PaddingLinked.padding-IsCodec R) s r here later owed l in
      (padding t, out, owed', p, o, l')
  receives _ _ here later owed l = absurd l

  settles : (s r : Codec R C) (owed : ByteVector) → Linked s r [] owed → owed ≡ []
  settles identity identity owed l = sym l
  settles (cfb s) (cfb r) owed l = CfbLinked.cfb-IsCodec.settles s r owed l
  settles (cfb_nonce s) (cfb_nonce r) owed l = (NonceLinked.cfb_nonce-IsCodec C).settles s r owed l
  settles (padding s) (padding r) owed l = (PaddingLinked.padding-IsCodec R).settles s r owed l
  settles _ _ owed l = absurd l

  -- Every kind of processor is a codec.
  pub codec-IsCodec : IsCodec (pack R C) (unpack R C) Linked
  codec-IsCodec = record { sends = sends; receives = receives; settles = settles }
