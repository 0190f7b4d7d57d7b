-- ===== src/Tunnel/Session/Places.antt =====
-- The invariant along the code between two awaits, for either coroutine.
use msg.Prelude.{
  ℕ, ◌≡◌, refl, sym, ap, ◌∙◌, subst, inl, inr, take, drop, take-append-drop, Bool, true, false, [],
  ◌∷◌, ◌++◌, append-nil, append_assoc, length-append, if◌then◌else◌, arith, flatten,
}
use msg.Bytes.{ByteVector}
use msg.Random.{Random}
use msg.Crypto.{Crypto}
use msg.Tunnel.Stream.{DataBufferList, stream}
use msg.Tunnel.Chain.{ProcessorChain}
use msg.Tunnel.Session.{
  Reader, reading, writing, finished, Side, local, remote, SessionState, half, other, close_all,
  wait, on_done, write_next, flush_next, count_write, cut_write, produce, see_eof, Half,
}
use msg.Tunnel.Session.Invariant.{
  done, on_wire, IsOn, Ready, Sound, close-Ready, turn, close-IsOn, ready, finish-Sound, wait-Sound,
  stop-IsOn,
}

module _ (R : Random) (C : Crypto) where
  -- The invariant, seen from a side.
  abbrev pub SoundAt : Side → SessionState R C → Type 0
  SoundAt side s =
      Sound (half R C side s) (half R C (other R C side) s) s.closed s.done_count s.conn_closes

  abbrev pub ReadyAt : Side → Reader → SessionState R C → Type 0
  ReadyAt side r s =
      Ready r (half R C side s) (half R C (other R C side) s) s.closed s.done_count s.conn_closes

  pub swap : (side : Side) (s : SessionState R C) → SoundAt side s → SoundAt (other R C side) s
  swap local s v = record {
    own_on = v.peer_on;
    own_bytes = v.peer_bytes;
    peer_on = v.own_on;
    peer_bytes = v.own_bytes;
    both = λ e e'. v.both e' e;
    counted = omega (arith, v.counted);
    logged = grind (arith, v.logged);
  }
  swap remote s v = record {
    own_on = v.peer_on;
    own_bytes = v.peer_bytes;
    peer_on = v.own_on;
    peer_bytes = v.own_bytes;
    both = λ e e'. v.both e' e;
    counted = omega (arith, v.counted);
    logged = grind (arith, v.logged);
  }

  pub done-Sound :
      (side : Side) (s : SessionState R C)
      → ReadyAt side finished s
      → SoundAt side (on_done R C side s)
  unfolding on_done
  done-Sound local s v =
      finish-Sound s.local_half s.remote_half s.closed s.done_count s.conn_closes v
  done-Sound remote s v =
      finish-Sound s.remote_half s.local_half s.closed s.done_count s.conn_closes v

  waits-Sound :
      (side : Side) (r : Reader) (s : SessionState R C)
      → done r ≡ 0
      → ReadyAt side r s
      → SoundAt side (wait R C side r s)
  waits-Sound local r s h v =
      wait-Sound r s.local_half s.remote_half s.closed s.done_count s.conn_closes h v
  waits-Sound remote r s h v =
      wait-Sound r s.remote_half s.local_half s.closed s.done_count s.conn_closes h v

  closed_Ready :
      (side : Side) (r : Reader) (s : SessionState R C)
      → ReadyAt side r s
      → ReadyAt side finished (close_all R C s)
  unfolding close_all
  closed_Ready local r s v =
      close-Ready r s.local_half s.remote_half s.closed s.done_count s.conn_closes v
  closed_Ready remote r s v =
      close-Ready r s.remote_half s.local_half s.closed s.done_count s.conn_closes v

  -- A coroutine that waits closes the sockets and returns.
  pub broken_off :
      (side : Side) (s : SessionState R C)
      → done (half R C side s).reader ≡ 0
      → SoundAt side s
      → SoundAt side (on_done R C side (close_all R C s))
  broken_off side s h v = done-Sound side (close_all R C s) (
      closed_Ready side (half R C side s).reader s (
        ready (half R C side s) (half R C (other R C side) s) s.closed s.done_count s.conn_closes h
          v))

  turned :
      (side : Side) (r r' : Reader) (s : SessionState R C)
      → IsOn s.closed (half R C side s) r'
      → ReadyAt side r s
      → ReadyAt side r' s
  turned side r r' s o v =
      turn r r' (half R C side s) (half R C (other R C side) s) s.closed s.done_count s.conn_closes
        o v

  -- Once the sockets are closed a coroutine may return without more ado.
  pub stopped :
      (side : Side) (r : Reader) (s : SessionState R C)
      → s.closed ≡ true
      → ReadyAt side r s
      → SoundAt side (on_done R C side s)
  stopped side r s c v = done-Sound side s (
      turned side r finished s
        (subst (λ b. IsOn b (half R C side s) finished) (sym c)
          (stop-IsOn s.closed (half R C side s) r v.own_on))
        v)

  -- The loop over the buffers goes on, ends in another read, or ends since the session is closed.
  pub write_next-Sound :
      (side : Side) (s : SessionState R C) (bs : DataBufferList)
      → ReadyAt side (writing bs) s
      → SoundAt side (write_next R C side s bs)
  unfolding write_next flatten
  write_next-Sound side s (b ∷ bs) v = waits-Sound side (writing (b ∷ bs)) s refl v
  write_next-Sound side s [] v = after_loop s.closed refl
    where
      after_loop :
          (b : Bool)
          → s.closed ≡ b
          → SoundAt side (if b then on_done R C side s else wait R C side reading s)
      after_loop true c = stopped side (writing []) s c v
      after_loop false c = waits-Sound side reading s refl (
          turned side (writing []) reading s
            (v.own_on.0, (v.own_on.1.0 ∙ append-nil (half R C side s).written, v.own_on.1.1)) v)

  -- The end of the file, with nothing to flush.
  pub flush_next-Sound :
      (side : Side) (s : SessionState R C)
      → ((half R C (other R C side) s).eof ≡ false → ReadyAt side finished s)
      → ReadyAt side finished (close_all R C s)
      → SoundAt side (flush_next R C side s [])
  unfolding flush_next
  flush_next-Sound side s f g = at_end (half R C (other R C side) s).eof refl
    where
      at_end :
          (b : Bool)
          → (half R C (other R C side) s).eof ≡ b
          → SoundAt side (if b then on_done R C side (close_all R C s) else on_done R C side s)
      at_end true e = done-Sound side (close_all R C s) g
      at_end false e = done-Sound side s (f e)

  -- Where a coroutine is, in the view of its own side.
  pub at :
      (side : Side) (s : SessionState R C) (r : Reader)
      → (half R C side s).reader ≡ r
      → done r ≡ 0
      → SoundAt side s
      → ReadyAt side r s
  at side s r e h v =
      subst (λ q. ReadyAt side q s) e
        (ready (half R C side s) (half R C (other R C side) s) s.closed s.done_count s.conn_closes
          (ap done e ∙ h) v)

  pub data-Ready :
      (side : Side) (s : SessionState R C) (c : ProcessorChain R C) (out : DataBufferList)
      → ReadyAt side reading s
      → ReadyAt side (writing out) (produce R C side c out s)
  data-Ready local s c out v =
      let o = v.own_on in
      record {
        own_on = (o.0, (ap (λ b. b ++ stream out) o.1.0, o.1.1));
        own_bytes = v.own_bytes;
        peer_on = v.peer_on;
        peer_bytes = v.peer_bytes;
        both = v.both;
        counted = v.counted;
        logged = v.logged;
      }
  data-Ready remote s c out v =
      let o = v.own_on in
      record {
        own_on = (o.0, (ap (λ b. b ++ stream out) o.1.0, o.1.1));
        own_bytes = v.own_bytes;
        peer_on = v.peer_on;
        peer_bytes = v.peer_bytes;
        both = v.both;
        counted = v.counted;
        logged = v.logged;
      }

  pub wrote-Ready :
      (side : Side) (s : SessionState R C) (b : ByteVector) (bs : DataBufferList)
      → ReadyAt side (writing (b ∷ bs)) s
      → ReadyAt side (writing bs) (count_write R C side b s)
  unfolding count_write flatten
  wrote-Ready local s b bs v =
      let h = s.local_half in
      record {
        own_on =
            (v.own_on.0, (v.own_on.1.0 ∙ sym (append_assoc h.written b (stream bs)), v.own_on.1.1));
        own_bytes = omega (arith, v.own_bytes, length-append h.written b);
        peer_on = v.peer_on;
        peer_bytes = v.peer_bytes;
        both = v.both;
        counted = v.counted;
        logged = v.logged;
      }
  wrote-Ready remote s b bs v =
      let h = s.remote_half in
      record {
        own_on =
            (v.own_on.0, (v.own_on.1.0 ∙ sym (append_assoc h.written b (stream bs)), v.own_on.1.1));
        own_bytes = omega (arith, v.own_bytes, length-append h.written b);
        peer_on = v.peer_on;
        peer_bytes = v.peer_bytes;
        both = v.both;
        counted = v.counted;
        logged = v.logged;
      }

  -- A write that throws leaves a prefix of its buffer on the wire.
  cut_on :
      (h : Half) (b : ByteVector) (bs : DataBufferList) (n : ℕ)
      → h.produced ≡ h.written ++ stream (b ∷ bs)
      → h.produced ≡ on_wire (record h { cut = take n b }) ++ (drop n b ++ stream bs)
  unfolding flatten
  cut_on h b bs n e =
      e
      ∙ ap (λ w. h.written ++ (w ++ stream bs)) (sym (take-append-drop n b))
      ∙ ap (◌++◌ h.written) (append_assoc (take n b) (drop n b) (stream bs))
      ∙ sym (append_assoc h.written (take n b) (drop n b ++ stream bs))

  cut-Ready :
      (side : Side) (s : SessionState R C) (b : ByteVector) (bs : DataBufferList) (n : ℕ)
      → ReadyAt side (writing (b ∷ bs)) s
      → ReadyAt side finished (close_all R C (cut_write R C side b n s))
  unfolding cut_write close_all
  cut-Ready local s b bs n v = record {
    own_on =
        inr (refl, (v.own_on.0, (drop n b ++ stream bs, cut_on s.local_half b bs n v.own_on.1.0)));
    own_bytes = v.own_bytes;
    peer_on = close-IsOn s.closed s.remote_half s.remote_half.reader v.peer_on;
    peer_bytes = v.peer_bytes;
    both = λ _ _. refl;
    counted = v.counted;
    logged = v.logged;
  }
  cut-Ready remote s b bs n v = record {
    own_on =
        inr (refl, (v.own_on.0, (drop n b ++ stream bs, cut_on s.remote_half b bs n v.own_on.1.0)));
    own_bytes = v.own_bytes;
    peer_on = close-IsOn s.closed s.local_half s.local_half.reader v.peer_on;
    peer_bytes = v.peer_bytes;
    both = λ _ _. refl;
    counted = v.counted;
    logged = v.logged;
  }

  -- The session in which a write has thrown.
  pub cut-Sound :
      (side : Side) (s : SessionState R C) (b : ByteVector) (bs : DataBufferList) (n : ℕ)
      → ReadyAt side (writing (b ∷ bs)) s
      → SoundAt side (on_done R C side (close_all R C (cut_write R C side b n s)))
  cut-Sound side s b bs n v = done-Sound side _ (cut-Ready side s b bs n v)

  -- The state in which a side has seen the end of its file and flushed nothing.
  abbrev pub ended : Side → SessionState R C → SessionState R C
  ended side s = produce R C side s.chain [] (see_eof R C side s)

  pub ended-Ready :
      (side : Side) (s : SessionState R C)
      → ReadyAt side reading s
      → ((half R C (other R C side) (ended side s)).eof ≡ false
          → ReadyAt side finished (ended side s))
        × ReadyAt side finished (close_all R C (ended side s))
  unfolding close_all flatten
  ended-Ready local s v =
      let all = append-nil s.local_half.produced ∙ v.own_on.1.0 in
      (
        λ e. record {
          own_on = inl (refl, (all, v.own_on.1.1));
          own_bytes = v.own_bytes;
          peer_on = v.peer_on;
          peer_bytes = v.peer_bytes;
          both = λ _ e'. absurd (cc);
          counted = v.counted;
          logged = v.logged;
        },
        record {
          own_on = inl (refl, (all, v.own_on.1.1));
          own_bytes = v.own_bytes;
          peer_on = close-IsOn s.closed s.remote_half s.remote_half.reader v.peer_on;
          peer_bytes = v.peer_bytes;
          both = λ _ _. refl;
          counted = v.counted;
          logged = v.logged;
        },
      )
  ended-Ready remote s v =
      let all = append-nil s.remote_half.produced ∙ v.own_on.1.0 in
      (
        λ e. record {
          own_on = inl (refl, (all, v.own_on.1.1));
          own_bytes = v.own_bytes;
          peer_on = v.peer_on;
          peer_bytes = v.peer_bytes;
          both = λ _ e'. absurd (cc);
          counted = v.counted;
          logged = v.logged;
        },
        record {
          own_on = inl (refl, (all, v.own_on.1.1));
          own_bytes = v.own_bytes;
          peer_on = close-IsOn s.closed s.local_half s.local_half.reader v.peer_on;
          peer_bytes = v.peer_bytes;
          both = λ _ _. refl;
          counted = v.counted;
          logged = v.logged;
        },
      )
