-- ===== src/Examples/Relays.antt =====
-- Frames of the relay, and a pair whose visitor sends two of them.
use msg.Prelude.{
  ◌≤◌, ◌<◌, ◌≡◌, refl, ◌⊎◌, true, false, none, some, List, [], ◌∷◌, ◌++◌, All, take, ok, throws,
  stream_ended, arith,
}
use msg.Bytes.{ByteVector}
use msg.Bytes.BigEndian.{word_bytes}
use msg.Relay.Frame.{Frame, eof_method, write_frame, read_frame}
use msg.Relay.Frame.RoundTrip.{read_frame-write_frame, read_frame_cut}
use msg.Bytes.Equal.{same}
use msg.Tunnel.Text.{codes, find}
use msg.Relay.Server.{
  visitor, provider, slot, Pairing, find_match, refused, ready, enter, register, registered,
  parse_register,
}
use msg.Relay.Server.Slots.{place_taken_for_good, second_makes_ready}
use msg.Relay.Pair.{
  Side, from_b, from_c, way, Event, arrived, stream_over, wrote, write_threw, take_frame,
  after_write, leave, way_step, step, run, new_pair,
}
use msg.Relay.Pair.Passing.{IsPassedOn, frames_pass_in_order}
use msg.Relay.Pair.Shutting.{dead_pairs_are_shut}
use msg.Relay.Pump.{Pump, pump_one_way}
use msg.Relay.Pump.Frames.{IsCarried, incoming, outgoing}
use msg.Relay.Pump.Closing.{passes_on_and_closes, told_end_leaves_open}
use msg.Relay.Pump.Returns.{pump_returns}

read_frame-write_frame_example :
    read_frame (write_frame 16 (7 ∷ 8 ∷ []) ++ (9 ∷ []))
    ≡ ok (some (record { method = 16; body = 7 ∷ 8 ∷ [] }, 9 ∷ []))
read_frame-write_frame_example = read_frame-write_frame 16 (7 ∷ 8 ∷ []) (9 ∷ []) (omega arith)

read_frame_cut_example :
    ((5 < 4) × (read_frame (take 5 (write_frame 16 (7 ∷ 8 ∷ []))) ≡ ok none))
    ⊎ ((4 ≤ 5) × (read_frame (take 5 (write_frame 16 (7 ∷ 8 ∷ []))) ≡ throws stream_ended))
unfolding write_frame word_bytes
read_frame_cut_example = read_frame_cut 16 (7 ∷ 8 ∷ []) 5 (omega arith) (omega arith)

-- NEW_SESSION and DATA from B
abbrev two_frames : List Frame
two_frames = record { method = 3; body = 1 ∷ [] } ∷ record { method = 16; body = 2 ∷ 3 ∷ [] } ∷ []

two_frames-IsCarried : All IsCarried two_frames
two_frames-IsCarried = ((omega arith, refl), ((omega arith, refl), tt))

abbrev pump_on : ByteVector → Pump
pump_on bytes = record {
  arriving = bytes;
  written = [];
  room = 3;
  to_open = true;
  from_open = true;
  dead = false;
}

passes_on_and_closes_example :
    pump_one_way b'B' (pump_on (incoming two_frames))
    ≡ ok (record {
      arriving = [];
      written = outgoing b'B' two_frames ++ write_frame eof_method [];
      room = 0;
      to_open = false;
      from_open = false;
      dead = true;
    })
passes_on_and_closes_example =
    passes_on_and_closes b'B' two_frames (pump_on (incoming two_frames)) two_frames-IsCarried refl
      refl refl refl

told_end_leaves_open_example :
    pump_one_way b'B' (pump_on (incoming two_frames ++ (write_frame eof_method [] ++ [])))
    ≡ ok (record {
      arriving = write_frame eof_method [] ++ [];
      written = outgoing b'B' two_frames ++ write_frame eof_method [];
      room = 0;
      to_open = false;
      from_open = true;
      dead = true;
    })
told_end_leaves_open_example =
    told_end_leaves_open b'B' two_frames [] 0
      (pump_on (incoming two_frames ++ (write_frame eof_method [] ++ []))) two_frames-IsCarried refl
      refl refl refl

pump_returns_example : (q : Pump) × (pump_one_way b'B' (pump_on (0 ∷ 0 ∷ 0 ∷ 9 ∷ 16 ∷ [])) ≡ ok q)
pump_returns_example = pump_returns b'B' (pump_on (0 ∷ 0 ∷ 0 ∷ 9 ∷ 16 ∷ []))

-- A visitor and a provider have registered under one identifier.
abbrev two_nodes : Pairing
two_nodes = registered [] ((1, 120 ∷ [], visitor) ∷ (2, 120 ∷ [], provider) ∷ [])

place_taken_for_good_example :
    (slot visitor (find_match (120 ∷ []) (registered two_nodes ((3, 121 ∷ [], visitor) ∷ [])))
      ≡ some 1)
    × ((register (registered two_nodes ((3, 121 ∷ [], visitor) ∷ [])) 4 (120 ∷ []) visitor).1
        ≡ refused)
unfolding registered register enter find_match same
place_taken_for_good_example =
    place_taken_for_good two_nodes ((3, 121 ∷ [], visitor) ∷ []) (120 ∷ []) visitor 1 4 refl

abbrev one_node : Pairing
one_node = registered [] ((1, 120 ∷ [], visitor) ∷ [])

second_makes_ready_example : (register one_node 2 (120 ∷ []) provider).1 ≡ ready 1 2
unfolding registered register enter find_match same
second_makes_ready_example = second_makes_ready one_node 2 1 (120 ∷ []) provider refl refl

-- The bodies that register a node, and some that do not.
parse_register_test :
    (parse_register (record { method = 1; body = codes "x B" }) ≡ some (codes "x", visitor))
    × (parse_register (record { method = 1; body = codes "x " }) ≡ none)
    × (parse_register (record { method = 2; body = codes "x C" }) ≡ none)
unfolding parse_register find
parse_register_test = (refl, refl, refl)

-- B's frame is passed on, C's connection ends, and B's coroutine finds the pair dead.
abbrev both_ways : List (Side × Event)
both_ways =
    (from_b, arrived (record { method = 3; body = 1 ∷ [] }))
    ∷ (from_b, wrote)
    ∷ (from_c, stream_over)
    ∷ (from_b, arrived (record { method = 16; body = 2 ∷ [] }))
    ∷ (from_c, wrote)
    ∷ (from_b, write_threw)
    ∷ []

frames_pass_in_order_example : IsPassedOn from_b (way from_b (run new_pair both_ways))
frames_pass_in_order_example = frames_pass_in_order both_ways from_b

dead_pairs_are_shut_example :
    ((run new_pair both_ways).b_open ≡ false) × ((run new_pair both_ways).c_open ≡ false)
unfolding run step way_step take_frame after_write leave
dead_pairs_are_shut_example = dead_pairs_are_shut both_ways refl refl refl
