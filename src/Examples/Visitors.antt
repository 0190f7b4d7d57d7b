-- ===== src/Examples/Visitors.antt =====
-- The visitor with one client.
use msg.Prelude.{◌≡◌, refl, true, false, none, some, List, [], ◌∷◌, ◌++◌}
use msg.Bytes.{ByteVector}
use msg.Bytes.Equal.{same}
use msg.Bytes.Table.{lookup, insert}
use msg.Relay.Talk.{data_frame, eof_frame}
use msg.Relay.Visitor.Client.{
  new_client, reading, begun, frame_sent, received_bytes, end_of_file, read_failed,
}
use msg.Relay.Visitor.{
  Visitor, waiting, accepting, ended, undefined, Event, frame, server_gone, write_done,
  write_failed, report_sent, accepted, announced, accept_failed, task, accept, step_acceptor, step,
  run, new_visitor,
}
use msg.Relay.Visitor.Stored.{IsEntry}
use msg.Relay.Visitor.Entries.{entries_are_open}
use msg.Relay.Visitor.Sending.{IsOrderly}
use msg.Relay.Visitor.Frames.{clients_talk_in_order}
use msg.Relay.Visitor.Halves.{half_open_goes_on, both_halves_clean_up}
use msg.Relay.Visitor.Hazards.{client_events, entry_is_used_when_gone, accepts_without_server}
use msg.Examples.Setup.{replicate}

abbrev an_id : ByteVector
an_id = replicate 36 b'7'

abbrev one_client : List Event
one_client =
    accepted an_id
    ∷ announced
    ∷ task 0 begun
    ∷ task 0 (received_bytes (1 ∷ 2 ∷ []))
    ∷ frame (eof_frame an_id)
    ∷ task 0 frame_sent
    ∷ task 0 end_of_file
    ∷ []

clients_talk_in_order_example : IsOrderly ((run new_visitor one_client).objects 0)
clients_talk_in_order_example = clients_talk_in_order one_client 0

entries_are_open_example :
    IsEntry
      (run new_visitor (accepted an_id ∷ [])).objects
      (run new_visitor (accepted an_id ∷ [])).next
      an_id
      0
unfolding new_visitor run step step_acceptor accept insert lookup same
entries_are_open_example = entries_are_open (accepted an_id ∷ []) an_id 0 refl

-- A client whose coroutine reads from it.
abbrev serving : Visitor
unfolding new_client
serving = record {
  sessions = (an_id, 0) ∷ [];
  objects = λ h. record (new_client an_id) { task = reading };
  next = 1;
  reader = waiting;
  acceptor = accepting;
}

half_open_goes_on_example :
    let w = run serving (
      task 0 end_of_file
      ∷ task 0 frame_sent
      ∷ frame (data_frame an_id (4 ∷ 5 ∷ []))
      ∷ write_done
      ∷ []) in
    (lookup an_id w.sessions ≡ some 0)
    × (((w.objects 0).closed ≡ false) × ((w.objects 0).written ≡ [] ++ 4 ∷ 5 ∷ []))
unfolding serving lookup same
half_open_goes_on_example =
    half_open_goes_on serving an_id 4 (5 ∷ []) 0 refl refl refl refl refl refl

both_halves_clean_up_example :
    let client_first =
      run serving (task 0 end_of_file ∷ task 0 frame_sent ∷ frame (eof_frame an_id) ∷ []) in
    let server_first =
      run serving (frame (eof_frame an_id) ∷ task 0 end_of_file ∷ task 0 frame_sent ∷ []) in
    ((lookup an_id client_first.sessions ≡ none) × ((client_first.objects 0).closed ≡ true))
    × ((lookup an_id server_first.sessions ≡ none) × ((server_first.objects 0).closed ≡ true))
unfolding serving lookup same
both_halves_clean_up_example =
    both_halves_clean_up serving an_id 0 refl refl refl refl refl refl refl refl

entry_is_used_when_gone_example :
    (run serving (
      frame (data_frame an_id (4 ∷ []))
        ∷ accept_failed
        ∷ client_events ((0, read_failed []) ∷ (0, frame_sent) ∷ [])
      ++ write_failed ∷ report_sent ∷ [])).reader
    ≡ undefined
unfolding serving lookup same
entry_is_used_when_gone_example =
    entry_is_used_when_gone serving ((0, read_failed []) ∷ (0, frame_sent) ∷ []) an_id 4 [] 0 refl
      refl refl refl

accepts_without_server_example :
    let w = run serving (
      server_gone
      ∷ accepted (1 ∷ [])
      ∷ announced
      ∷ task 1 begun
      ∷ frame (data_frame an_id (4 ∷ []))
      ∷ []) in
    (w.reader ≡ ended)
    × ((w.acceptor ≡ accepting)
        × ((lookup (1 ∷ []) w.sessions ≡ some 1)
            × (((w.objects 1).client_open ≡ true)
                × (((w.objects 1).task ≡ reading) × ((w.objects 1).written ≡ [])))))
unfolding serving
accepts_without_server_example =
    accepts_without_server serving (1 ∷ []) (data_frame an_id (4 ∷ []) ∷ []) refl refl
