-- ===== src/Examples/Across.antt =====
-- Two bytes of a client on their way to the remote.
use msg.Prelude.{◌≡◌, refl, List, [], ◌∷◌}
use msg.Bytes.{ByteVector}
use msg.Relay.Provider
use msg.Relay.Visitor
use msg.Relay.Visitor.{accepted, announced, task}
use msg.Relay.Visitor.Client.{
  begun, frame_sent, received_bytes, new_client, spawn, pump_head, hand, after_read, after_send,
  complete, task_step,
}
use msg.Relay.Across.{delivery, client_bytes_reach_remote}
use msg.Examples.Setup.{replicate}

abbrev an_id : ByteVector
an_id = replicate 36 b'7'

abbrev two_bytes : List Visitor.Event
two_bytes =
    accepted an_id
    ∷ announced
    ∷ task 0 begun
    ∷ task 0 (received_bytes (1 ∷ 2 ∷ []))
    ∷ task 0 frame_sent
    ∷ []

client_bytes_reach_remote_example :
    let s = (Visitor.run Visitor.new_visitor two_bytes).objects 0 in
    (chunks : List ByteVector) × (((Provider.run Provider.new_provider
          (delivery 0 s.sent chunks)).objects
        0).written
      ≡ s.received)
unfolding Visitor.new_visitor Visitor.run Visitor.step Visitor.step_acceptor Visitor.accept
    Visitor.settle new_client spawn pump_head hand after_read after_send complete task_step
client_bytes_reach_remote_example =
    client_bytes_reach_remote two_bytes 0 Provider.new_provider refl (refl, (refl, tt)) refl refl
