-- ===== src/Relay/Across.antt =====
-- From a client of the visitor through the server to the remote of the provider: run_visitor,
-- pump_one_way and run_provider of relay.cpp, with the frames of one session.
use msg.Prelude.{
  ℕ, ◌≡◌, refl, sym, ap, subst, ◌∙◌, inl, List, [], ◌∷◌, ◌++◌, map, flatten, length, append-nil,
  All,
}
use msg.Bytes.{ByteVector}
use msg.Relay.Frame.{Frame, uuid_bytes, forward_session_method}
use msg.Relay.Talk.{new_session_frame, data_frame}
use msg.Relay.Pair.{from_b, passed}
use msg.Relay.Pump.{translated}
use msg.Relay.Provider
use msg.Relay.Provider.{Provider, waiting, frame}
use msg.Relay.Provider.Task.{connected, frame_sent}
use msg.Relay.Provider.Draining.{drains}
use msg.Relay.Provider.Ordering.{arrivals, early_data_in_order}
use msg.Relay.Visitor
use msg.Relay.Visitor.Client.{ClientSession, reading}
use msg.Relay.Visitor.Sending.{without_close, IsNoClose, Sends, Told, Speaks, without_close-Talk}
use msg.Relay.Visitor.Frames.{run_told}

-- The provider's events for the frames that the server passes on from B.
abbrev pub through : List Frame → List Provider.Event
through fs = map (λ f. frame (passed from_b f)) fs

through_data :
    (uuid : ByteVector) (chunks : List ByteVector)
    → through (map (data_frame uuid) chunks) ≡ arrivals uuid chunks
unfolding translated
through_data uuid [] = refl
through_data uuid (c ∷ chunks) = ap (◌∷◌ (frame (data_frame uuid c))) (through_data uuid chunks)

-- The provider awaits a frame, gets these frames, connects, sends SESSION_OK and writes the buffers.
abbrev pub delivery : ℕ → List Frame → List ByteVector → List Provider.Event
delivery h fs chunks =
    through fs ++ (Provider.task h connected ∷ Provider.task h frame_sent ∷ drains h chunks)

session_delivered :
    (p : Provider) (uuid : ByteVector) (chunks : List ByteVector)
    → p.loop ≡ waiting
    → length uuid ≡ uuid_bytes
    → ((Provider.run p
          (delivery p.next (new_session_frame uuid ∷ map (data_frame uuid) chunks) chunks)).objects
        p.next).written
      ≡ flatten chunks
unfolding translated
session_delivered p uuid chunks idle size =
    ap
      (λ es.
        ((Provider.run p (
            frame (record { method = forward_session_method; body = uuid }) ∷ es
            ++ (Provider.task p.next connected
                ∷ Provider.task p.next frame_sent
                ∷ drains p.next chunks))).objects
          p.next).written)
      (through_data uuid chunks)
    ∙ early_data_in_order p uuid chunks idle size

speaks : (s : ClientSession) → s.task ≡ reading → Told s → Speaks s
speaks s e k = subst (Sends s.uuid s.sent s.received) e k

-- A client whose coroutine reads from it, at any point of any run of the visitor at which no
-- SESSION_CLOSE has been sent for it: when the server has passed on all that was sent for it to a
-- provider that awaits a frame, before the connection to the remote stands, the remote is sent exactly
-- the bytes that were read from the client.
pub client_bytes_reach_remote :
    (es : List Visitor.Event) (k : ℕ) (p : Provider)
    → ((Visitor.run Visitor.new_visitor es).objects k).task ≡ reading
    → All IsNoClose ((Visitor.run Visitor.new_visitor es).objects k).sent
    → length ((Visitor.run Visitor.new_visitor es).objects k).uuid ≡ uuid_bytes
    → p.loop ≡ waiting
    → let s = (Visitor.run Visitor.new_visitor es).objects k in
      (chunks : List ByteVector) × (((Provider.run p (delivery p.next s.sent chunks)).objects
          p.next).written
        ≡ s.received)
unfolding Visitor.new_visitor without_close
client_bytes_reach_remote es k p reads no_close size idle =
    let s = (Visitor.run Visitor.new_visitor es).objects k in
    let talk =
      without_close-Talk s (speaks s reads (run_told es Visitor.new_visitor (λ h. inl refl) k))
        no_close in
    (
      talk.chunks,
      ap (λ fs. ((Provider.run p (delivery p.next fs talk.chunks)).objects p.next).written)
            (talk.sent_eq
              ∙ append-nil (new_session_frame s.uuid ∷ map (data_frame s.uuid) talk.chunks))
          ∙ session_delivered p s.uuid talk.chunks idle size
          ∙ sym talk.received_eq,
    )
