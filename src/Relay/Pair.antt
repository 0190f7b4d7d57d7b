-- ===== src/Relay/Pair.antt =====
-- The two coroutines `pump_one_way` of a pair in relay.cpp, in any order, with the sockets and
-- `match->dead` that they share.
pub mod Passing
pub mod Shutting
use msg.Prelude.{
  Bool, true, false, ◌&&◌, Option, none, some, List, [], ◌∷◌, ◌++◌, ◌==◌, if◌then◌else◌,
}
use msg.Bytes.{Byte}
use msg.Relay.Frame.{Frame, eof_method}
use msg.Relay.Pump.{translated}

-- The node whose frames a coroutine passes on.
pub data Side : Type 0 where
  from_b : Side
  from_c : Side

abbrev pub role : Side → Byte
role from_b = b'B'
role from_c = b'C'

-- What a coroutine awaits: a frame, the write of one, the write of EOF_ in the loop or the one behind
-- it; or it has returned, or that last write has thrown.
pub data At : Type 0 where
  reading : At
  passing : Frame → At
  telling_end : At
  closing : At
  finished : At
  failed : At

-- `read` are the frames that have been read, without EOF_, and `sent` those that have been written.
pub record Way : Type 0 where
  pub at : At
  pub read : List Frame
  pub sent : List Frame

pub record Pair : Type 0 where
  pub way_b : Way
  pub way_c : Way
  pub b_open : Bool
  pub c_open : Bool
  pub dead : Bool

abbrev pub way : Side → Pair → Way
way from_b p = p.way_b
way from_c p = p.way_c

abbrev pub with_way : Side → Way → Pair → Pair
with_way from_b w p = record p { way_b = w }
with_way from_c w p = record p { way_c = w }

-- Whether `to->sock` is open, and its end.
abbrev pub to_open : Side → Pair → Bool
to_open from_b p = p.c_open
to_open from_c p = p.b_open

abbrev pub close_to : Side → Pair → Pair
close_to from_b p = record p { c_open = false }
close_to from_c p = record p { b_open = false }

abbrev pub eof_frame : Frame
eof_frame = record { method = eof_method; body = [] }

-- A frame as it is passed on.
abbrev pub passed : Side → Frame → Frame
passed side f = record { method = translated (role side) f; body = f.body }

-- Behind the loop: `match->dead` is exchanged.
unfoldable pub leave : Side → Pair → Way → Pair
leave side p w =
    if p.dead
    then with_way side (record w { at = finished }) p
    else with_way side (record w { at = closing }) (record p { dead = true })

-- A frame has been read.
unfoldable pub take_frame : Side → Pair → Way → Frame → Pair
take_frame side p w f =
    if f.method == eof_method
    then with_way side (record w { at = telling_end }) p
    else with_way side (record w { at = passing f; read = w.read ++ f ∷ [] }) p

-- The outcomes of `read_frame` (no frame and an exception alike), and of `write_frame`.
pub data Event : Type 0 where
  arrived : Frame → Event
  stream_over : Event
  wrote : Event
  write_threw : Event

-- A write to `to->sock` has succeeded.
unfoldable pub after_write : Side → Pair → Way → At → Pair
after_write side p w (passing f) =
    with_way side (record w { at = reading; sent = w.sent ++ passed side f ∷ [] }) p
after_write side p w telling_end =
    leave side (close_to side p) (record w { sent = w.sent ++ eof_frame ∷ [] })
after_write side p w closing =
    with_way side (record w { at = finished; sent = w.sent ++ eof_frame ∷ [] })
      (record p { b_open = false; c_open = false })
after_write side p w _ = p

-- What a coroutine makes of an event. One that it does not await does not come, and a write to a
-- closed socket does not succeed.
unfoldable pub way_step : Side → Pair → Way → At → Event → Pair
way_step side p w reading (arrived f) = take_frame side p w f
way_step side p w reading stream_over = leave side p w
way_step side p w (passing f) write_threw = leave side p w
way_step side p w telling_end write_threw = leave side p w
way_step side p w closing write_threw = with_way side (record w { at = failed }) p
way_step side p w at wrote = if to_open side p then after_write side p w at else p
way_step side p w _ _ = p

unfoldable pub step : Pair → Side × Event → Pair
step p (side, e) = way_step side p (way side p) (way side p).at e

unfoldable pub run : Pair → List (Side × Event) → Pair
run p [] = p
run p (e ∷ es) = run (step p e) es

-- When READY has been written to both.
abbrev pub new_way : Way
new_way = record { at = reading; read = []; sent = [] }

abbrev pub new_pair : Pair
new_pair = record { way_b = new_way; way_c = new_way; b_open = true; c_open = true; dead = false }

-- READY is written to B and then to C. A write that throws ends the handler of the registration: the
-- pair keeps its place in the map and has no coroutines.
unfoldable pub start_pair : Bool → Bool → Option Pair
start_pair b_takes_ready c_takes_ready =
    if b_takes_ready && c_takes_ready then some new_pair else none
