-- ===== src/Examples/Providers.antt =====
-- The provider with one session, a node that registers, and two frames that are written at once.
use msg.Prelude.{
  ℕ, ◌≡◌, refl, ◌⊎◌, ◌≤◌, ◌+◌, ◌<◌, true, false, none, some, List, [], ◌∷◌, ◌++◌, flatten, length,
  ok, arith,
}
use msg.Bytes.{ByteVector}
use msg.Bytes.Equal.{same}
use msg.Bytes.Table.{lookup}
use msg.Tunnel.Text.{codes, find}
use msg.Relay.Frame.{Frame, forward_session_method, read_frame}
use msg.Relay.Talk.{data_frame}
use msg.Relay.Server.{visitor, parse_register}
use msg.Relay.Node.{registration}
use msg.Relay.Node.Registering.{server_reads_registration, letter}
use msg.Relay.Writes.{aconn_write, write_all}
use msg.Relay.Writes.{concurrent_writes_mix}
use msg.Relay.Provider.Task.{
  SessionState, new_session, Completion, connected, frame_sent, wrote, received_bytes, end_of_file,
  sending, after_eof, finished, report, drain_next, complete, task_step,
}
use msg.Relay.Provider.{
  Provider, waiting, writing, Event, frame, write_done, write_threw, task, step, run, new_provider,
}
use msg.Relay.Provider.Sending.{IsOrderly}
use msg.Relay.Provider.Frames.{sessions_talk_in_order}
use msg.Relay.Provider.Draining.{drains}
use msg.Relay.Provider.Ordering.{arrivals, early_data_in_order, late_data_overtakes}
use msg.Relay.Provider.Ending.{IsOver, failed_write_ends_all, half_open_dropped}
use msg.Relay.Provider.Finishing.{go_on, left_to_do, closed_session_finishes}
use msg.Examples.Setup.{replicate}

-- An identifier of the protocol's length.
abbrev an_id : ByteVector
an_id = replicate 36 b'7'

abbrev forward_it : Event
forward_it = frame (record { method = forward_session_method; body = an_id })

abbrev one_talk : List Event
one_talk =
    forward_it
    ∷ task 0 connected
    ∷ frame (data_frame an_id (5 ∷ []))
    ∷ task 0 frame_sent
    ∷ write_done
    ∷ task 0 (received_bytes (1 ∷ 2 ∷ []))
    ∷ task 0 frame_sent
    ∷ task 0 end_of_file
    ∷ []

sessions_talk_in_order_example : IsOrderly ((run new_provider one_talk).objects 0)
sessions_talk_in_order_example = sessions_talk_in_order one_talk 0

abbrev two_chunks : List ByteVector
two_chunks = (1 ∷ 2 ∷ []) ∷ (3 ∷ []) ∷ []

early_data_in_order_example :
    ((run new_provider (
        forward_it ∷ arrivals an_id two_chunks
        ++ (task 0 connected ∷ task 0 frame_sent ∷ drains 0 two_chunks))).objects
      0).written
    ≡ flatten two_chunks
early_data_in_order_example = early_data_in_order new_provider an_id two_chunks refl refl

late_data_overtakes_example :
    ((run new_provider (
        forward_it ∷ arrivals an_id two_chunks
        ++ (task 0 connected
            ∷ frame (data_frame an_id (9 ∷ []))
            ∷ write_done
            ∷ task 0 frame_sent
            ∷ drains 0 two_chunks))).objects
      0).written
    ≡ (9 ∷ []) ++ flatten two_chunks
late_data_overtakes_example = late_data_overtakes new_provider an_id two_chunks (9 ∷ []) refl refl

-- Two sessions; DATA is being written to the remote of the first.
abbrev busy : Provider
unfolding new_session
busy = record {
  sessions = (1 ∷ [], 1) ∷ (an_id, 0) ∷ [];
  objects = λ h. record (new_session an_id) {
    remote_open = true;
    remote_connected = true;
    connecting = false;
  };
  next = 2;
  loop = writing 0 (5 ∷ []);
}

failed_write_ends_all_example :
    (((step busy write_threw).objects 1).remote_open ≡ false)
    × IsOver (run (step busy write_threw) (task 0 frame_sent ∷ forward_it ∷ []))
unfolding lookup same busy
failed_write_ends_all_example =
    failed_write_ends_all busy 0 (5 ∷ []) (1 ∷ []) 1 (task 0 frame_sent ∷ forward_it ∷ []) refl refl

-- The remote of the only session has sent all it has.
abbrev half_ended : Provider
unfolding new_session
half_ended = record {
  sessions = (an_id, 0) ∷ [];
  objects = λ h. record (new_session an_id) {
    remote_open = true;
    remote_connected = true;
    connecting = false;
    half_close_send = true;
    task = sending after_eof;
  };
  next = 1;
  loop = waiting;
}

half_open_dropped_example :
    let q = step half_ended (task 0 frame_sent) in
    ((q.objects 0).closed ≡ false)
    × ((lookup an_id q.sessions ≡ none) × (step q (frame (data_frame an_id (4 ∷ []))) ≡ q))
unfolding half_ended
half_open_dropped_example = half_open_dropped half_ended 0 (4 ∷ []) refl refl refl refl refl

abbrev closed_early : SessionState
unfolding new_session
closed_early = record (new_session an_id) { closed = true; arrival_buffer = two_chunks }

abbrev all_completions : List Completion
all_completions = connected ∷ frame_sent ∷ wrote ∷ wrote ∷ []

closed_session_finishes_example :
    let s = go_on closed_early all_completions in
    (length all_completions + left_to_do s s.task ≤ left_to_do closed_early closed_early.task)
    × ((s.task ≡ finished) ⊎ (length all_completions < left_to_do closed_early closed_early.task))
unfolding closed_early new_session task_step complete report drain_next
closed_session_finishes_example =
    closed_session_finishes closed_early all_completions refl (refl, (refl, (refl, (refl, tt))))

server_reads_registration_example :
    (f : Frame) × (read_frame (registration (codes "home") (letter visitor) ++ 1 ∷ [])
      ≡ ok (some (f, 1 ∷ [])))
    × (parse_register f ≡ some (codes "home", visitor))
unfolding find
server_reads_registration_example =
    server_reads_registration (codes "home") (1 ∷ []) visitor refl (omega arith)

concurrent_writes_mix_example :
    (schedule : List (ℕ × ℕ)) × (frame : Frame) × (rest : ByteVector) × (read_frame
        (write_all
          (aconn_write
            (aconn_write (record { in_flight = []; wire = [] }) 16 (1 ∷ 2 ∷ []))
            17
            (3 ∷ []))
          schedule).wire
      ≡ ok (some (frame, rest)))
    × (frame.method ≡ 0)
concurrent_writes_mix_example =
    concurrent_writes_mix 16 17 (1 ∷ 2 ∷ []) (3 ∷ []) (omega arith) (omega arith)
