-- ===== src/Tunnel/Session/Lifetime.antt =====
-- Whole sessions: what holds after any sequence of completions.
use msg.Prelude.{
  Bool-cases, ◌⊎◌, false, ◌+◌, ◌*◌, ◌≡◌, refl, sym, ap, ◌∙◌, subst, inl, inr, true, [], ◌∷◌, ◌++◌,
  length, Result, ok, throws, diverges, ok_injective,
}
use msg.Bytes.{ByteVector, u64}
use msg.Random.{Random}
use msg.Crypto.{Crypto}
use msg.Tunnel.Stream.{DataBufferList}
use msg.Tunnel.Chain.{ProcessorChain}
use msg.Tunnel.Chain.Flush.{flush_nothing}
use msg.Tunnel.Session.{
  Reader, reading, writing, flushing, finished, Side, local, remote, Completion, received,
  end_of_file, operation_aborted, read_failed, wrote, write_failed, SessionState, half, on_data,
  flush, see_eof, after_data, after_flush, complete, read_side, new_session,
}
use msg.Tunnel.Session.Invariant.{done, IsOn, on_wire, split_output}
use msg.Tunnel.Session.Places.{
  SoundAt, swap, broken_off, stopped, write_next-Sound, flush_next-Sound, at, data-Ready,
  wrote-Ready, cut-Sound, ended, ended-Ready,
}

module _ (R : Random) (C : Crypto) where
  -- A pending read is cancelled by closing its socket, and only `close_all` closes one.
  abbrev pub IsPossible : SessionState R C → Completion → Type 0
  IsPossible s operation_aborted = s.closed ≡ true
  IsPossible s (received input) = Unit
  IsPossible s end_of_file = Unit
  IsPossible s read_failed = Unit
  IsPossible s wrote = Unit
  IsPossible s (write_failed n) = Unit

  -- The states of a session that starts with a chain, with the completions of both coroutines in any order.
  pub data Reaches (c : ProcessorChain R C) : SessionState R C → Type 0 where
    begins : Reaches c (new_session R C c)
    continues :
        (s s' : SessionState R C) (side : Side) (e : Completion)
        → Reaches c s
        → IsPossible s e
        → read_side R C side s e ≡ ok s'
        → Reaches c s'

  becomes :
      (side : Side) {s s' : SessionState R C}
      → ◌≡◌ {A = Result (SessionState R C)} (ok s) (ok s')
      → SoundAt R C side s
      → SoundAt R C side s'
  becomes side e v = subst (SoundAt R C side) (ok_injective e) v

  data_Sound :
      (side : Side) (s s' : SessionState R C) (m : Result (ProcessorChain R C × DataBufferList))
      → (half R C side s).reader ≡ reading
      → SoundAt R C side s
      → after_data R C side s m ≡ ok s'
      → SoundAt R C side s'
  unfolding after_data
  data_Sound side s s' (ok (c, out)) r v e = becomes side e (
      write_next-Sound R C side _ out
        (data-Ready R C side s c out (at R C side s reading r refl v)))
  data_Sound side s s' (throws x) r v e = becomes side e (broken_off R C side s (ap done r) v)
  data_Sound side s s' diverges r v e = absurd (cc)

  flush_nothing_at : (side : Side) (c : ProcessorChain R C) → flush R C side c ≡ ok (c, [])
  unfolding flush
  flush_nothing_at local c = (flush_nothing R C c).0
  flush_nothing_at remote c = (flush_nothing R C c).1

  eof_Sound :
      (side : Side) (s s' : SessionState R C)
      → (half R C side s).reader ≡ reading
      → SoundAt R C side s
      → after_flush R C side (see_eof R C side s) (flush R C side s.chain) ≡ ok s'
      → SoundAt R C side s'
  unfolding after_flush
  eof_Sound side s s' r v e =
      let (open_end, closed_end) = ended-Ready R C side s (at R C side s reading r refl v) in
      subst (SoundAt R C side)
        (ok_injective (
          ap (after_flush R C side (see_eof R C side s)) (sym (flush_nothing_at side s.chain)) ∙ e))
        (flush_next-Sound R C side (ended R C side s) open_end closed_end)

  step_Sound :
      (side : Side) (s s' : SessionState R C) (r : Reader) (e : Completion)
      → (half R C side s).reader ≡ r
      → SoundAt R C side s
      → IsPossible s e
      → complete R C side s r e ≡ ok s'
      → SoundAt R C side s'
  unfolding complete
  step_Sound side s s' reading (received input) h v p e =
      data_Sound side s s' (on_data R C side s.chain input) h v e
  step_Sound side s s' reading end_of_file h v p e = eof_Sound side s s' h v e
  step_Sound side s s' reading operation_aborted h v p e =
      becomes side e (stopped R C side reading s p (at R C side s reading h refl v))
  step_Sound side s s' reading read_failed h v p e =
      becomes side e (broken_off R C side s (ap done h) v)
  step_Sound side s s' reading wrote h v p e = becomes side e v
  step_Sound side s s' reading (write_failed n) h v p e = becomes side e v
  step_Sound side s s' (writing (b ∷ bs)) wrote h v p e = becomes side e (
      write_next-Sound R C side _ bs
        (wrote-Ready R C side s b bs (at R C side s (writing (b ∷ bs)) h refl v)))
  step_Sound side s s' (writing []) wrote h v p e = becomes side e v
  step_Sound side s s' (writing []) (write_failed n) h v p e = becomes side e v
  step_Sound side s s' (writing (b ∷ bs)) (write_failed n) h v p e =
      becomes side e (cut-Sound R C side s b bs n (at R C side s (writing (b ∷ bs)) h refl v))
  step_Sound side s s' (writing []) (received input) h v p e = becomes side e v
  step_Sound side s s' (writing (b ∷ bs)) (received input) h v p e = becomes side e v
  step_Sound side s s' (writing []) end_of_file h v p e = becomes side e v
  step_Sound side s s' (writing (b ∷ bs)) end_of_file h v p e = becomes side e v
  step_Sound side s s' (writing []) operation_aborted h v p e = becomes side e v
  step_Sound side s s' (writing (b ∷ bs)) operation_aborted h v p e = becomes side e v
  step_Sound side s s' (writing []) read_failed h v p e = becomes side e v
  step_Sound side s s' (writing (b ∷ bs)) read_failed h v p e = becomes side e v
  step_Sound side s s' (flushing bs) e' h v p e =
      absurd (at R C side s (flushing bs) h refl v).own_on
  step_Sound side s s' finished e' h v p e = becomes side e v

  from_local : (side : Side) (s : SessionState R C) → SoundAt R C local s → SoundAt R C side s
  from_local local s v = v
  from_local remote s v = swap R C local s v

  to_local : (side : Side) (s : SessionState R C) → SoundAt R C side s → SoundAt R C local s
  to_local local s v = v
  to_local remote s v = swap R C remote s v

  reached_Sound :
      (c : ProcessorChain R C) (s : SessionState R C) → Reaches c s → SoundAt R C local s
  unfolding read_side
  reached_Sound c s begins = record {
    own_on = (refl, (refl, refl));
    own_bytes = refl;
    peer_on = (refl, (refl, refl));
    peer_bytes = refl;
    both = λ e e'. absurd (cc);
    counted = refl;
    logged = refl;
  }
  reached_Sound c s (continues t _ side e reached possible step) = to_local side s (
      step_Sound side t s (half R C side t).reader e refl
        (from_local side t (reached_Sound c t reached)) possible step)

  -- When both coroutines of a session have returned, both sockets are closed.
  pub ends_closed :
      (c : ProcessorChain R C) (s : SessionState R C)
      → Reaches c s
      → s.local_half.reader ≡ finished
      → s.remote_half.reader ≡ finished
      → s.closed ≡ true
  ends_closed c s reached l r =
      let v = reached_Sound c s reached in
      shut (subst (IsOn s.closed s.local_half) l v.own_on)
        (subst (IsOn s.closed s.remote_half) r v.peer_on)
    where
      shut :
          IsOn s.closed s.local_half finished
          → IsOn s.closed s.remote_half finished
          → s.closed ≡ true
      shut (inr (e, _)) _ = e
      shut (inl _) (inr (e, _)) = e
      shut (inl (e, _)) (inl (e', _)) = (reached_Sound c s reached).both e e'

  -- `done_count` is the number of the coroutines that have returned, and the closing of the
  -- connection is logged once if both have, and otherwise not at all.
  pub closing_logged_once :
      (c : ProcessorChain R C) (s : SessionState R C)
      → Reaches c s
      → (s.done_count ≡ done s.local_half.reader + done s.remote_half.reader)
        × (s.conn_closes ≡ done s.local_half.reader * done s.remote_half.reader)
  closing_logged_once c s reached = let v = reached_Sound c s reached in (v.counted, v.logged)

  -- What a coroutine has put on the other socket, with what a write that threw had written, is a
  -- prefix of what the chain has put out for it, and all of that, with no write cut short, unless the
  -- coroutine has not seen the end of its file. Only a closed session has a write that was cut short.
  -- The byte count is, in 64 bits, the number of the bytes of the writes that ended well.
  pub written_in_order :
      (c : ProcessorChain R C) (s : SessionState R C) (side : Side)
      → Reaches c s
      → let h = half R C side s in
        ((rest : ByteVector) × (h.produced ≡ on_wire h ++ rest))
        × ((h.eof ≡ false) ⊎ ((h.produced ≡ h.written) × (h.cut ≡ [])))
        × ((h.cut ≡ []) ⊎ (s.closed ≡ true))
        × (h.bytes ≡ u64 (length h.written))
  written_in_order c s side reached =
      let v = from_local side s (reached_Sound c s reached) in
      let (whole, rest) =
        split_output s.closed (half R C side s) (half R C side s).reader v.own_on in
      let h = half R C side s in
      let (all, cut_closed) = rest in
      let known : (h.eof ≡ false) ⊎ ((h.produced ≡ h.written) × (h.cut ≡ [])) =
        elim (Bool-cases h.eof) [ inl e ↦ inr (all e) | inr e ↦ inl e ] in
      (whole, known, cut_closed, v.own_bytes)
