-- ===== src/Tunnel/Chain/Linked.antt =====
-- The chains of the two nodes are a codec in both directions: the exit node has the processors of
-- the entry node in the opposite order, with the opposite role.
use mathlib.Core.List.{reverse-reverse}
use msg.Prelude.{◌≡◌, refl, sym, ap, ◌∙◌, subst, [], ◌∷◌, reverse}
use msg.Bytes.{ByteVector}
use msg.Random.{Random}
use msg.Crypto.{Crypto}
use msg.Tunnel.Stream.{Transform, IsCodec}
use msg.Tunnel.Stream.Pipeline.{forward, backward, LinkedAll, row-IsCodec}
use msg.Tunnel.Processor
use msg.Tunnel.Processor.Roles as Roles
use msg.Tunnel.Chain.{ProcessorChain, on_local_data, on_remote_data}
use msg.Tunnel.Chain.Mirror.{turned, forward-reverse}

module _ {P : Type 0} {pack unpack : Transform P}
    {Linked : P → P → ByteVector → ByteVector → Type 0} (codec : IsCodec pack unpack Linked) where
  -- The receiving row is kept in the opposite order and run forward.
  forward_row-IsCodec :
      IsCodec
        (λ ss x. forward pack ss (x ∷ []))
        (λ qs x. forward unpack qs (x ∷ []))
        (λ ss qs. LinkedAll Linked ss (reverse qs))
  forward_row-IsCodec = record {
    sends = λ ss qs wire owed x ss' out l e.
        (row-IsCodec codec).sends ss (reverse qs) wire owed x ss' out l e;
    receives = λ ss qs here later owed l.
        let (rs, out, owed', e, o, l') =
          (row-IsCodec codec).receives ss (reverse qs) here later owed l in
        (
          reverse rs,
          out,
          owed',
          ap (λ ps. forward unpack ps (here ∷ [])) (sym (reverse-reverse qs))
              ∙ forward-reverse unpack (reverse qs) (here ∷ [])
              ∙ ap turned e,
          o,
          subst (λ ps. LinkedAll Linked ss ps later owed') (sym (reverse-reverse rs)) l',
        );
    settles = λ ss qs owed l. (row-IsCodec codec).settles ss (reverse qs) owed l;
  }

  -- The sending row is kept in the opposite order, and both are run backward.
  backward_row-IsCodec :
      IsCodec
        (λ qs x. backward pack qs (x ∷ []))
        (λ rs x. backward unpack rs (x ∷ []))
        (λ qs rs. LinkedAll Linked (reverse qs) rs)
  backward_row-IsCodec = record {
    sends = λ qs rs wire owed x qs' out l e.
        (row-IsCodec codec).sends (reverse qs) rs wire owed x (reverse qs') out l
          (forward-reverse pack qs (x ∷ []) ∙ ap turned e);
    receives =
        λ qs rs here later owed l. (row-IsCodec codec).receives (reverse qs) rs here later owed l;
    settles = λ qs rs owed l. (row-IsCodec codec).settles (reverse qs) rs owed l;
  }

-- The same operations under another name.
IsCodec-ext :
    {P : Type 0} (pack unpack pack' unpack' : Transform P)
    (Linked : P → P → ByteVector → ByteVector → Type 0)
    → ((p : P) (x : ByteVector) → pack' p x ≡ pack p x)
    → ((p : P) (x : ByteVector) → unpack' p x ≡ unpack p x)
    → IsCodec pack unpack Linked
    → IsCodec pack' unpack' Linked
IsCodec-ext pack unpack pack' unpack' Linked p u c = record {
  sends = λ s r wire owed x s' out l e. c.sends s r wire owed x s' out l (sym (p s x) ∙ e);
  receives = λ s r here later owed l.
      let (r', out, owed', e, o, l') = c.receives s r here later owed l in
      (r', out, owed', u r here ∙ e, o, l');
  settles = c.settles;
}

module _ (R : Random) (C : Crypto) where
  local_runs_forward :
      (ps : ProcessorChain R C) (x : ByteVector)
      → on_local_data R C ps x ≡ forward (Processor.on_local_data R C) ps (x ∷ [])
  unfolding on_local_data forward
  local_runs_forward [] x = refl
  local_runs_forward (p ∷ ps) x = refl

  remote_runs_backward :
      (ps : ProcessorChain R C) (x : ByteVector)
      → on_remote_data R C ps x ≡ backward (Processor.on_remote_data R C) ps (x ∷ [])
  unfolding on_remote_data backward
  remote_runs_backward [] x = refl
  remote_runs_backward (p ∷ ps) x = refl

  -- The entry node's chain, the exit node's chain, the bytes between them and the bytes to come.
  abbrev pub Outbound : ProcessorChain R C → ProcessorChain R C → ByteVector → ByteVector → Type 0
  Outbound entry exit = LinkedAll (Roles.Outbound R C) entry (reverse exit)

  -- The exit node's chain, the entry node's, and the bytes of the way back.
  abbrev pub Inbound : ProcessorChain R C → ProcessorChain R C → ByteVector → ByteVector → Type 0
  Inbound exit entry = LinkedAll (Roles.Inbound R C) (reverse exit) entry

  pub Outbound-IsCodec : IsCodec (on_local_data R C) (on_local_data R C) Outbound
  Outbound-IsCodec =
      IsCodec-ext _ _ (on_local_data R C) (on_local_data R C) Outbound local_runs_forward
        local_runs_forward (forward_row-IsCodec (Roles.Outbound-IsCodec R C))

  pub Inbound-IsCodec : IsCodec (on_remote_data R C) (on_remote_data R C) Inbound
  Inbound-IsCodec =
      IsCodec-ext _ _ (on_remote_data R C) (on_remote_data R C) Inbound remote_runs_backward
        remote_runs_backward (backward_row-IsCodec (Roles.Inbound-IsCodec R C))
