-- ===== src/Tunnel/Stream/Pipeline.antt =====
-- The loops of processor_chain.cpp over the processors and the buffers, for any processors; a row
-- of codecs is a codec.
use msg.Prelude.{
  ◌≡◌, refl, sym, ap, ap₂, subst, transport, ◌∙◌, List, [], ◌∷◌, ◌++◌, flatten, append_assoc,
  append-nil, flatten-append, Result, ok, ◌>>=◌, >>=-eq-ok, ok_inj,
}
use msg.Bytes.{ByteVector}
use msg.Tunnel.Stream.{DataBufferList, stream, Transform, IsCodec}

module _ {P : Type 0} (f : Transform P) where
  -- `for (auto& buf : cur) p->...(buf, next)`
  unfoldable pub feed : P → DataBufferList → Result (P × DataBufferList)
  feed p [] = ok (p, [])
  feed p (b ∷ bs) = do (p', out) ← f p b; (p'', rest) ← feed p' bs; ok (p'', out ++ rest)

  -- from the first processor to the last
  unfoldable pub forward : List P → DataBufferList → Result (List P × DataBufferList)
  forward [] cur = ok ([], cur)
  forward (p ∷ ps) cur = do
    (p', next) ← feed p cur
    (ps', out) ← forward ps next
    ok (p' ∷ ps', out)

  -- from the last processor to the first, by `rbegin` and `rend`
  unfoldable pub backward : List P → DataBufferList → Result (List P × DataBufferList)
  backward [] cur = ok ([], cur)
  backward (p ∷ ps) cur = do
    (ps', next) ← backward ps cur
    (p', out) ← feed p next
    ok (p' ∷ ps', out)

module _ {P : Type 0} {pack unpack : Transform P}
    {Linked : P → P → ByteVector → ByteVector → Type 0} (codec : IsCodec pack unpack Linked) where
  relink :
      {s s' r : P} {wire wire' owed owed' : ByteVector}
      → s ≡ s'
      → wire ≡ wire'
      → owed ≡ owed'
      → Linked s r wire owed
      → Linked s' r wire' owed'
  relink {r} p q t l = transport (λ i. Linked (p i) r (q i) (t i)) l

  feed_sends :
      (bs : DataBufferList) (s r : P) (wire owed : ByteVector) (s' : P) (out : DataBufferList)
      → Linked s r wire owed
      → feed pack s bs ≡ ok (s', out)
      → Linked s' r (wire ++ stream out) (owed ++ stream bs)
  unfolding feed flatten
  feed_sends [] s r wire owed s' out l e =
      relink (ok_inj e).0 (sym (append-nil wire) ∙ ap (λ bs. wire ++ stream bs) (ok_inj e).1)
        (sym (append-nil owed)) l
  feed_sends (b ∷ bs) s r wire owed s' out l e =
      let ((t, first), p, e') = >>=-eq-ok (pack s b) _ e in
      let ((u, rest), q, e'') = >>=-eq-ok (feed pack t bs) _ e' in
      let sent = codec.sends s r wire owed b t first l p in
      let all = feed_sends bs t r (wire ++ stream first) (owed ++ b) u rest sent q in
      relink (ok_inj e'').0
        (append_assoc wire (stream first) (stream rest)
          ∙ ap (◌++◌ wire) (sym (flatten-append first rest))
          ∙ ap (λ bs. wire ++ stream bs) (ok_inj e'').1)
        (append_assoc owed b (stream bs)) all

  feed_receives :
      (bs : DataBufferList) (s r : P) (later owed : ByteVector)
      → Linked s r (stream bs ++ later) owed
      → (r' : P) × (out : DataBufferList) × (owed' : ByteVector) × (feed unpack r bs ≡ ok (r', out))
        × (owed ≡ stream out ++ owed')
        × Linked s r' later owed'
  unfolding feed flatten
  feed_receives [] s r later owed l = (r, [], owed, refl, refl, l)
  feed_receives (b ∷ bs) s r later owed l =
      let (t, first, mid, p, o, l') =
        codec.receives s r b (stream bs ++ later) owed
          (relink refl (append_assoc b (stream bs) later) refl l) in
      let (u, rest, owed', q, o', l'') = feed_receives bs s t later mid l' in
      (
        u,
        first ++ rest,
        owed',
        rw (p, q),
        o
            ∙ ap (◌++◌ (stream first)) o'
            ∙ sym (append_assoc (stream first) (stream rest) owed')
            ∙ ap (λ w. w ++ owed') (sym (flatten-append first rest)),
        l'',
      )

-- A row of linked pairs: what one pair owes is the wire of the pair before it.
abbrev pub LinkedAll :
    {P : Type 0} (Linked : P → P → ByteVector → ByteVector → Type 0)
    → List P
    → List P
    → ByteVector
    → ByteVector
    → Type 0
LinkedAll Linked [] [] wire owed = wire ≡ owed
LinkedAll Linked [] (r ∷ rs) wire owed = ⊥
LinkedAll Linked (s ∷ ss) [] wire owed = ⊥
LinkedAll Linked (s ∷ ss) (r ∷ rs) wire owed =
    (mid : ByteVector) × Linked s r mid owed × LinkedAll Linked ss rs wire mid

module _ {P : Type 0} {pack unpack : Transform P}
    {Linked : P → P → ByteVector → ByteVector → Type 0} (codec : IsCodec pack unpack Linked) where
  forward_sends :
      (ss rs : List P) (wire owed : ByteVector) (cur : DataBufferList) (ss' : List P)
      (out : DataBufferList)
      → LinkedAll Linked ss rs wire owed
      → forward pack ss cur ≡ ok (ss', out)
      → LinkedAll Linked ss' rs (wire ++ stream out) (owed ++ stream cur)
  unfolding forward
  forward_sends [] [] wire owed cur ss' out l e =
      subst (λ ts. LinkedAll Linked ts [] (wire ++ stream out) (owed ++ stream cur)) (ok_inj e).0
        (ap₂ ◌++◌ l (ap stream (sym (ok_inj e).1)))
  forward_sends [] (r ∷ rs) wire owed cur ss' out l e = absurd l
  forward_sends (s ∷ ss) [] wire owed cur ss' out l e = absurd l
  forward_sends (s ∷ ss) (r ∷ rs) wire owed cur ss' out (mid, l, ls) e =
      let ((t, next), p, e') = >>=-eq-ok (feed pack s cur) _ e in
      let ((ts, out'), q, e'') = >>=-eq-ok (forward pack ss next) _ e' in
      let first = feed_sends codec cur s r mid owed t next l p in
      let others = forward_sends ss rs wire mid next ts out' ls q in
      transport
        (λ i.
          LinkedAll Linked ((ok_inj e'').0 i) (r ∷ rs) (wire ++ stream ((ok_inj e'').1 i))
            (owed ++ stream cur))
        (mid ++ stream next, first, others)

  backward_receives :
      (ss rs : List P) (cur : DataBufferList) (later owed : ByteVector)
      → LinkedAll Linked ss rs (stream cur ++ later) owed
      → (rs' : List P) × (out : DataBufferList) × (owed' : ByteVector) × (backward unpack rs cur
          ≡ ok (rs', out))
        × (owed ≡ stream out ++ owed')
        × LinkedAll Linked ss rs' later owed'
  unfolding backward
  backward_receives [] [] cur later owed l = ([], cur, later, refl, sym l, refl)
  backward_receives [] (r ∷ rs) cur later owed l = absurd l
  backward_receives (s ∷ ss) [] cur later owed l = absurd l
  backward_receives (s ∷ ss) (r ∷ rs) cur later owed (mid, l, ls) =
      let (ts, next, mid', p, o, ls') = backward_receives ss rs cur later mid ls in
      let (t, out, owed', q, o', l') =
        feed_receives codec next s r mid' owed (relink codec refl o refl l) in
      (t ∷ ts, out, owed', rw (p, q), o', (mid', l', ls'))

  settled : (ss rs : List P) (owed : ByteVector) → LinkedAll Linked ss rs [] owed → owed ≡ []
  settled [] [] owed l = sym l
  settled [] (r ∷ rs) owed l = absurd l
  settled (s ∷ ss) [] owed l = absurd l
  settled (s ∷ ss) (r ∷ rs) owed (mid, l, ls) =
      codec.settles s r owed (relink codec refl (settled ss rs mid ls) refl l)

  -- A row of codecs is a codec, if the receiving row runs from its last member to its first.
  pub row-IsCodec :
      IsCodec
        (λ ss x. forward pack ss (x ∷ []))
        (λ rs x. backward unpack rs (x ∷ []))
        (LinkedAll Linked)
  unfolding flatten
  row-IsCodec = record {
    sends = λ ss rs wire owed x ss' out l e.
        subst (λ w. LinkedAll Linked ss' rs (wire ++ stream out) (owed ++ w)) (append-nil x)
          (forward_sends ss rs wire owed (x ∷ []) ss' out l e);
    receives = λ ss rs here later owed l.
        backward_receives ss rs (here ∷ []) later owed
          (subst (λ w. LinkedAll Linked ss rs (w ++ later) owed) (sym (append-nil here)) l);
    settles = settled;
  }
