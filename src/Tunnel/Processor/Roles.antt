-- ===== src/Tunnel/Processor/Roles.antt =====
-- A processor and its counterpart on the other node, which has `reverse_` set. An identity processor
-- is built without the flag on both nodes, and does not need it.
use msg.Prelude.{
  ◌≡◌, sym, ◌∙◌, ap, transport, ◌⊎◌, inl, inr, Bool, true, false, ◌++◌, Result, ok, >>=-eq-ok,
  ok_inj, arith,
}
use msg.Bytes.{ByteVector}
use msg.Random.{Random}
use msg.Crypto.{Crypto}
use msg.Tunnel.Stream.{DataBufferList, stream, IsCodec}
use msg.Tunnel.Processor.{
  Processor, Codec, identity, copy, pack, unpack, with_codec, on_local_data, on_remote_data,
}
use msg.Tunnel.Processor.Linked.{codec-IsCodec}
use msg.Tunnel.Processor.Linked as Codecs

module _ (R : Random) (C : Crypto) where
  abbrev pub Role : Bool → Processor R C → Type 0
  Role b p = (p.codec ≡ identity) ⊎ (p.reverse ≡ b)

  -- From the entry node, which packs, to the exit node, which unpacks.
  pub record Outbound (s r : Processor R C) (wire owed : ByteVector) : Type 0 where
    pub packs : Role false s
    pub unpacks : Role true r
    pub linked : Codecs.Linked R C s.codec r.codec wire owed

  -- From the exit node back to the entry node.
  pub record Inbound (s r : Processor R C) (wire owed : ByteVector) : Type 0 where
    pub packs : Role true s
    pub unpacks : Role false r
    pub linked : Codecs.Linked R C s.codec r.codec wire owed

  with_codec_inv :
      (p p' : Processor R C) (m : Result (Codec R C × DataBufferList)) (out : DataBufferList)
      → with_codec R C p m ≡ ok (p', out)
      → (c : Codec R C) × (m ≡ ok (c, out)) × (record p { codec = c } ≡ p')
  unfolding with_codec
  with_codec_inv p p' m out e =
      let ((c, bs), em, e') = >>=-eq-ok m _ e in
      (c, em ∙ (λ i. ok (c, (ok_inj e').1 i)), (ok_inj e').0)

  both_copy : (c : Codec R C) (x : ByteVector) → c ≡ identity → pack R C c x ≡ unpack R C c x
  unfolding pack unpack
  both_copy c x e = rw e

  -- An identity processor stays one, and no other changes its flag.
  pack_keeps :
      (b : Bool) (p : Processor R C) (x : ByteVector) (c : Codec R C) (out : DataBufferList)
      → Role b p
      → pack R C p.codec x ≡ ok (c, out)
      → Role b (record p { codec = c })
  unfolding pack copy
  pack_keeps b p x c out (inl i) e = inl (sym (ok_inj (sym (ap (λ d. pack R C d x) i) ∙ e)).0)
  pack_keeps b p x c out (inr h) e = inr h

  unpack_keeps :
      (b : Bool) (p : Processor R C) (x : ByteVector) (c : Codec R C) (out : DataBufferList)
      → Role b p
      → unpack R C p.codec x ≡ ok (c, out)
      → Role b (record p { codec = c })
  unfolding unpack copy
  unpack_keeps b p x c out (inl i) e = inl (sym (ok_inj (sym (ap (λ d. unpack R C d x) i) ∙ e)).0)
  unpack_keeps b p x c out (inr h) e = inr h

  module _ (p : Processor R C) (x : ByteVector) where
    local_packs : Role false p → on_local_data R C p x ≡ with_codec R C p (pack R C p.codec x)
    unfolding on_local_data
    local_packs (inl i) = ground (arith, both_copy p.codec x i)
    local_packs (inr h) = rw h

    local_unpacks : Role true p → on_local_data R C p x ≡ with_codec R C p (unpack R C p.codec x)
    unfolding on_local_data
    local_unpacks (inl i) = ground (arith, both_copy p.codec x i)
    local_unpacks (inr h) = rw h

    remote_packs : Role true p → on_remote_data R C p x ≡ with_codec R C p (pack R C p.codec x)
    unfolding on_remote_data
    remote_packs (inl i) = ground (arith, both_copy p.codec x i)
    remote_packs (inr h) = rw h

    remote_unpacks : Role false p → on_remote_data R C p x ≡ with_codec R C p (unpack R C p.codec x)
    unfolding on_remote_data
    remote_unpacks (inl i) = ground (arith, both_copy p.codec x i)
    remote_unpacks (inr h) = rw h

  -- On the entry node local data is packed, on the exit node it is unpacked.
  pub Outbound-IsCodec : IsCodec (on_local_data R C) (on_local_data R C) Outbound
  unfolding with_codec
  Outbound-IsCodec = record {
    sends = λ s r wire owed x s' out l e.
        let (c, em, q) =
          with_codec_inv s s' (pack R C s.codec x) out (sym (local_packs s x l.packs) ∙ e) in
        transport (λ i. Outbound (q i) r (wire ++ stream out) (owed ++ x))
          (record {
            packs = pack_keeps false s x c out l.packs em;
            unpacks = l.unpacks;
            linked = (codec-IsCodec R C).sends s.codec r.codec wire owed x c out l.linked em;
          });
    receives = λ s r here later owed l.
        let (c, out, owed', em, o, l') =
          (codec-IsCodec R C).receives s.codec r.codec here later owed l.linked in
        (
          record r { codec = c },
          out,
          owed',
          local_unpacks r here l.unpacks ∙ rw em,
          o,
          record {
            packs = l.packs;
            unpacks = unpack_keeps true r here c out l.unpacks em;
            linked = l';
          },
        );
    settles = λ s r owed l. (codec-IsCodec R C).settles s.codec r.codec owed l.linked;
  }

  -- Remote data the other way round.
  pub Inbound-IsCodec : IsCodec (on_remote_data R C) (on_remote_data R C) Inbound
  unfolding with_codec
  Inbound-IsCodec = record {
    sends = λ s r wire owed x s' out l e.
        let (c, em, q) =
          with_codec_inv s s' (pack R C s.codec x) out (sym (remote_packs s x l.packs) ∙ e) in
        transport (λ i. Inbound (q i) r (wire ++ stream out) (owed ++ x))
          (record {
            packs = pack_keeps true s x c out l.packs em;
            unpacks = l.unpacks;
            linked = (codec-IsCodec R C).sends s.codec r.codec wire owed x c out l.linked em;
          });
    receives = λ s r here later owed l.
        let (c, out, owed', em, o, l') =
          (codec-IsCodec R C).receives s.codec r.codec here later owed l.linked in
        (
          record r { codec = c },
          out,
          owed',
          remote_unpacks r here l.unpacks ∙ rw em,
          o,
          record {
            packs = l.packs;
            unpacks = unpack_keeps false r here c out l.unpacks em;
            linked = l';
          },
        );
    settles = λ s r owed l. (codec-IsCodec R C).settles s.codec r.codec owed l.linked;
  }
