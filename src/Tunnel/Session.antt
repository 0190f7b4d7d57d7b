-- ===== src/Tunnel/Session.antt =====
-- `SessionState`, `read_local`, `read_remote` and `start_session` of tunnel.cpp. Each coroutine runs
-- until it awaits a read or a write; an event is the completion of what one of them awaits.
pub mod Invariant
pub mod Places
pub mod Lifetime
use msg.Prelude.{
  ℕ, zero, suc, ◌+◌, Bool, true, false, List, [], ◌∷◌, ◌++◌, length, take, ◌==◌, if◌then◌else◌,
  Result, ok, throws, diverges,
}
use msg.Bytes.{ByteVector, u64}
use msg.Random.{Random}
use msg.Crypto.{Crypto}
use msg.Tunnel.Stream.{DataBufferList, stream}
use msg.Tunnel.Chain.{ProcessorChain, on_local_data, on_remote_data, flush_local, flush_remote}

-- Where a coroutine waits: in `async_read_some`, in an `async_write` of the loop over `output` with
-- these buffers left, in one of the loop over `flushed`, or it has returned.
pub data Reader : Type 0 where
  reading : Reader
  writing : DataBufferList → Reader
  flushing : DataBufferList → Reader
  finished : Reader

-- What the code keeps once for each direction. For `read_local`: `local_eof`, `tx_bytes`, and whether
-- the sending half of `remote_sock` has been shut down. `written` are the buffers whose writes to
-- `remote_sock` have ended well, `cut` is what a write that threw had written by then, and `produced`
-- is what the chain has put out for it.
pub record Half : Type 0 where
  pub eof : Bool
  pub bytes : ℕ
  pub reader : Reader
  pub shut : Bool
  pub written : ByteVector
  pub cut : ByteVector
  pub produced : ByteVector

pub data Side : Type 0 where
  local : Side
  remote : Side

-- The outcomes of a read with an error code, and of a write. One that throws has written some bytes
-- of its buffer before.
pub data Completion : Type 0 where
  received : ByteVector → Completion
  end_of_file : Completion
  operation_aborted : Completion
  read_failed : Completion
  wrote : Completion
  write_failed : ℕ → Completion

module _ (R : Random) (C : Crypto) where
  -- `conn_closes` counts the calls of `log_conn_close`.
  pub record SessionState : Type 0 where
    pub local_half : Half
    pub remote_half : Half
    pub closed : Bool
    pub done_count : ℕ
    pub conn_closes : ℕ
    pub chain : ProcessorChain R C

  abbrev pub half : Side → SessionState → Half
  half local s = s.local_half
  half remote s = s.remote_half

  abbrev pub with_half : Side → Half → SessionState → SessionState
  with_half local h s = record s { local_half = h }
  with_half remote h s = record s { remote_half = h }

  abbrev pub other : Side → Side
  other local = remote
  other remote = local

  -- `on_local_data` in `read_local`, `on_remote_data` in `read_remote`
  unfoldable pub on_data :
      Side → ProcessorChain R C → ByteVector → Result (ProcessorChain R C × DataBufferList)
  on_data local c input = on_local_data R C c input
  on_data remote c input = on_remote_data R C c input

  unfoldable pub flush : Side → ProcessorChain R C → Result (ProcessorChain R C × DataBufferList)
  flush local c = flush_local R C c
  flush remote c = flush_remote R C c

  -- `close_all`
  unfoldable pub close_all : SessionState → SessionState
  close_all s = record s { closed = true }

  abbrev pub wait : Side → Reader → SessionState → SessionState
  wait side r s = with_half side (record (half side s) { reader = r }) s

  -- A coroutine returns or throws: `on_done` of `start_session`.
  unfoldable pub on_done : Side → SessionState → SessionState
  on_done side s =
      let done = s.done_count + 1 in
      wait side finished (record s {
        done_count = done;
        conn_closes = if done == 2 then s.conn_closes + 1 else s.conn_closes;
      })

  -- The loop over `output` with these buffers left, and the test of the `while` behind it.
  unfoldable pub write_next : Side → SessionState → DataBufferList → SessionState
  write_next side s (b ∷ bs) = wait side (writing (b ∷ bs)) s
  write_next side s [] = if s.closed then on_done side s else wait side reading s

  -- The loop over `flushed`, and the end of the branch for the end of the file.
  unfoldable pub flush_next : Side → SessionState → DataBufferList → SessionState
  flush_next side s (b ∷ bs) = wait side (flushing (b ∷ bs)) s
  flush_next side s [] =
      if (half (other side) s).eof then on_done side (close_all s) else on_done side s

  -- A write of a buffer has succeeded.
  unfoldable pub count_write : Side → ByteVector → SessionState → SessionState
  count_write side b s =
      let h = half side s in
      with_half side (record h { bytes = u64 (h.bytes + length b); written = h.written ++ b }) s

  -- A write of a buffer has thrown when so many bytes had been written.
  unfoldable pub cut_write : Side → ByteVector → ℕ → SessionState → SessionState
  cut_write side b n s = with_half side (record (half side s) { cut = take n b }) s

  -- The chain has put out buffers for this side.
  abbrev pub produce : Side → ProcessorChain R C → DataBufferList → SessionState → SessionState
  produce side c out s =
      let h = half side s in
      record (with_half side (record h { produced = h.produced ++ stream out }) s) { chain = c }

  after_data :
      Side → SessionState → Result (ProcessorChain R C × DataBufferList) → Result SessionState
  after_data side s (ok (c, out)) = ok (write_next side (produce side c out s) out)
  after_data side s (throws e) = ok (on_done side (close_all s))
  after_data side s diverges = diverges

  after_flush :
      Side → SessionState → Result (ProcessorChain R C × DataBufferList) → Result SessionState
  after_flush side s (ok (c, out)) = ok (flush_next side (produce side c out s) out)
  after_flush side s (throws e) = ok (on_done side s)
  after_flush side s diverges = diverges

  -- The flag of this side's end of file, and `shutdown_send` on the other socket.
  abbrev pub see_eof : Side → SessionState → SessionState
  see_eof side s = with_half side (record (half side s) { eof = true; shut = true }) s

  -- One completion, by what the coroutine waits for. A completion of something else does not come.
  unfoldable pub complete : Side → SessionState → Reader → Completion → Result SessionState
  unfolding after_data after_flush
  complete side s reading (received input) = after_data side s (on_data side s.chain input)
  complete side s reading end_of_file = after_flush side (see_eof side s) (flush side s.chain)
  complete side s reading operation_aborted = ok (on_done side s)
  complete side s reading read_failed = ok (on_done side (close_all s))
  complete side s (writing (b ∷ bs)) wrote = ok (write_next side (count_write side b s) bs)
  complete side s (writing (b ∷ bs)) (write_failed n) =
      ok (on_done side (close_all (cut_write side b n s)))
  complete side s (flushing (b ∷ bs)) wrote = ok (flush_next side (count_write side b s) bs)
  complete side s (flushing (b ∷ bs)) (write_failed n) =
      ok (on_done side (close_all (cut_write side b n s)))
  complete side s _ _ = ok s

  -- `read_local` for the local side, `read_remote` for the remote one.
  unfoldable pub read_side : Side → SessionState → Completion → Result SessionState
  read_side side s e = complete side s (half side s).reader e

  abbrev pub fresh : Half
  fresh = record {
    eof = false;
    bytes = 0;
    reader = reading;
    shut = false;
    written = [];
    cut = [];
    produced = [];
  }

  -- After `start_session`.
  abbrev pub new_session : ProcessorChain R C → SessionState
  new_session c = record {
    local_half = fresh;
    remote_half = fresh;
    closed = false;
    done_count = 0;
    conn_closes = 0;
    chain = c;
  }
