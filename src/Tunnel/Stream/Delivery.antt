-- ===== src/Tunnel/Stream/Delivery.antt =====
-- A codec over a TCP connection: the sender's calls and the receiver's reads in any order, where a
-- read brings any part of what is on the wire.
use msg.Prelude.{
  ℕ, ◌≡◌, sym, ap, ◌∙◌, List, [], ◌∷◌, ◌++◌, take, drop, take-append-drop, append_assoc, append-nil,
  subst, Result, ok, ◌>>=◌, >>=-eq-ok, ok_injective,
}
use msg.Bytes.{ByteVector}
use msg.Tunnel.Stream.{stream, Transform, IsCodec}

-- One direction of a connection: both ends, what is between them, and what went in and came out.
pub record Connection (P : Type 0) : Type 0 where
  pub sender : P
  pub receiver : P
  pub wire : ByteVector
  pub sent : ByteVector
  pub delivered : ByteVector

-- A chunk is sent, or the receiver reads up to so many bytes.
pub data Event : Type 0 where
  send : ByteVector → Event
  deliver : ℕ → Event

module _ {P : Type 0} (pack unpack : Transform P) where
  unfoldable pub step : Connection P → Event → Result (Connection P)
  step c (send x) = do
    (s, out) ← pack c.sender x
    ok (record c { sender = s; wire = c.wire ++ stream out; sent = c.sent ++ x })
  step c (deliver n) = do
    (r, out) ← unpack c.receiver (take n c.wire)
    ok (record c { receiver = r; wire = drop n c.wire; delivered = c.delivered ++ stream out })

  unfoldable pub run : Connection P → List Event → Result (Connection P)
  run c [] = ok c
  run c (e ∷ es) = do c' ← step c e; run c' es

module _ {P : Type 0} {pack unpack : Transform P}
    {Linked : P → P → ByteVector → ByteVector → Type 0} (codec : IsCodec pack unpack Linked) where
  -- The ends are linked over the wire, and what is owed is what was sent and has not come out.
  pub record IsSound (c : Connection P) : Type 0 where
    pub owed : ByteVector
    pub linked : Linked c.sender c.receiver c.wire owed
    pub accounts : c.sent ≡ c.delivered ++ owed

  send-IsSound :
      (c : Connection P) (x : ByteVector) (c' : Connection P)
      → IsSound c
      → step pack unpack c (send x) ≡ ok c'
      → IsSound c'
  unfolding step
  send-IsSound c x c' v e =
      let ((s, out), ep, e') = >>=-eq-ok (pack c.sender x) _ e in
      subst IsSound (ok_injective e') (record {
        owed = v.owed ++ x;
        linked = codec.sends c.sender c.receiver c.wire v.owed x s out v.linked ep;
        accounts = ap (λ b. b ++ x) v.accounts ∙ append_assoc c.delivered v.owed x;
      })

  deliver-IsSound :
      (c : Connection P) (n : ℕ)
      → IsSound c
      → (c' : Connection P) × (step pack unpack c (deliver n) ≡ ok c') × IsSound c'
  unfolding step
  deliver-IsSound c n v =
      let (r, out, owed', eu, o, l) =
        codec.receives c.sender c.receiver (take n c.wire) (drop n c.wire) v.owed (
          subst (λ w. Linked c.sender c.receiver w v.owed) (sym (take-append-drop n c.wire))
            v.linked) in
      (
        record c { receiver = r; wire = drop n c.wire; delivered = c.delivered ++ stream out },
        rw eu,
        record {
          owed = owed';
          linked = l;
          accounts =
              v.accounts
              ∙ ap (◌++◌ c.delivered) o
              ∙ sym (append_assoc c.delivered (stream out) owed');
        },
      )

  step-IsSound :
      (c : Connection P) (e : Event) (c' : Connection P)
      → IsSound c
      → step pack unpack c e ≡ ok c'
      → IsSound c'
  step-IsSound c (send x) c' v e = send-IsSound c x c' v e
  step-IsSound c (deliver n) c' v e =
      let (d, e', v') = deliver-IsSound c n v in subst IsSound (ok_injective (sym e' ∙ e)) v'

  run-IsSound :
      (c : Connection P) (es : List Event) (c' : Connection P)
      → IsSound c
      → run pack unpack c es ≡ ok c'
      → IsSound c'
  unfolding run
  run-IsSound c [] c' v e = subst IsSound (ok_injective e) v
  run-IsSound c (x ∷ es) c' v e =
      let (d, e₁, e₂) = >>=-eq-ok (step pack unpack c x) _ e in
      run-IsSound d es c' (step-IsSound c x d v e₁) e₂

  -- What has come out is a prefix of what went in, all of it once the wire is empty, and the next
  -- read succeeds whatever it brings.
  pub run-delivers :
      (c : Connection P) (es : List Event) (c' : Connection P)
      → Linked c.sender c.receiver c.wire []
      → c.sent ≡ c.delivered
      → run pack unpack c es ≡ ok c'
      → (rest : ByteVector) × (c'.sent ≡ c'.delivered ++ rest)
        × (c'.wire ≡ [] → rest ≡ [])
        × ((n : ℕ) → (d : Connection P) × (step pack unpack c' (deliver n) ≡ ok d))
  run-delivers c es c' l same e =
      let v =
        run-IsSound c es c'
          (record { owed = []; linked = l; accounts = same ∙ sym (append-nil c.delivered) }) e in
      (
        v.owed,
        v.accounts,
        λ empty.
            codec.settles c'.sender c'.receiver v.owed
              (subst (λ w. Linked c'.sender c'.receiver w v.owed) empty v.linked),
        λ n. let (d, e', _) = deliver-IsSound c' n v in (d, e'),
      )
