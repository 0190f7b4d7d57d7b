-- ===== src/Relay/Pump.antt =====
-- `pump_one_way` of relay.cpp: the server passes frames on from one node of a pair to the other.
pub mod Frames
pub mod Closing
pub mod Returns
use msg.Prelude.{
  ℕ, zero, suc, ◌+◌, Bool, true, false, ◌&&◌, Option, none, some, List, [], ◌∷◌, ◌++◌, length, ◌==◌,
  if◌then◌else◌, Result, ok, throws, diverges, ◌>>=◌,
}
use msg.Bytes.{Byte, ByteVector}
use msg.Relay.Frame.{
  Method, Frame, new_session_method, forward_session_method, eof_method, write_frame, read_frame,
}

-- One direction of a pair, as long as the coroutine of the other direction does nothing: what
-- `from->sock` still brings, what has been written to `to->sock`, how many more writes its peer
-- takes, which sockets are open, and `match->dead`.
pub record Pump : Type 0 where
  pub arriving : ByteVector
  pub written : ByteVector
  pub room : ℕ
  pub to_open : Bool
  pub from_open : Bool
  pub dead : Bool

-- `write_frame` to `to->sock`; `none` is an exception, as a write to a closed socket gives one.
pub attempt : Pump → ByteVector → ℕ → Bool → Option Pump
attempt p bytes zero to_open = none
attempt p bytes (suc n) false = none
attempt p bytes (suc n) true = some (record p { written = p.written ++ bytes; room = n })

unfoldable pub send_frame : Pump → Method → ByteVector → Option Pump
unfolding attempt
send_frame p method body = attempt p (write_frame method body) p.room p.to_open

-- The method under which a frame is passed on.
unfoldable pub translated : Byte → Frame → Method
translated role frame =
    if (frame.method == new_session_method) && (role == b'B')
    then forward_session_method
    else frame.method

-- A frame for the end of the stream is passed on, and `to->sock` is closed.
unfoldable pub after_eof : Pump → Option Pump → Result Pump
after_eof p none = ok p
after_eof p (some q) = ok (record q { to_open = false })

-- Another frame has been passed on, with `rest` behind it: the loop goes on by `continue`.
unfoldable pub after_frame : (Pump → Result Pump) → ByteVector → Pump → Option Pump → Result Pump
after_frame continue rest p none = ok p
after_frame continue rest p (some q) = continue (record q { arriving = rest })

-- The body of the loop on what `read_frame` gives. However the loop ends, what is left is the state:
-- the `catch` takes all exceptions.
unfoldable pub on_frame :
    (Pump → Result Pump) → Byte → Pump → Result (Option (Frame × ByteVector)) → Result Pump
unfolding after_eof after_frame
on_frame continue role p diverges = diverges
on_frame continue role p (throws e) = ok p
on_frame continue role p (ok none) = ok p
on_frame continue role p (ok (some (frame, rest))) =
    if frame.method == eof_method
    then after_eof p (send_frame p eof_method [])
    else after_frame continue rest p (send_frame p (translated role frame) frame.body)

-- The loop in the `try` block.
unfoldable pub pump_loop : ℕ → Byte → Pump → Result Pump
unfolding on_frame
pump_loop zero role p = diverges
pump_loop (suc fuel) role p = on_frame (λ q. pump_loop fuel role q) role p (read_frame p.arriving)

-- The part behind the loop. If its write throws, the coroutine ends there: it is `detached`.
pub after_last : Pump → Option Pump → Pump
after_last p none = record p { dead = true }
after_last p (some q) = record q { to_open = false; from_open = false; dead = true }

unfoldable pub close_pair : Pump → Pump
unfolding after_last
close_pair p = if p.dead then p else after_last p (send_frame p eof_method [])

-- A frame that is passed on has five bytes, so a round for each byte and one more are enough.
unfoldable pub pump_one_way : Byte → Pump → Result Pump
pump_one_way role p = do q ← pump_loop (length p.arriving + 1) role p; ok (close_pair q)
