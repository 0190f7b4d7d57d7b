-- ===== src/Tunnel/TwoHop.antt =====
-- Two tunnel nodes with one list of `--processor` arguments, the exit node with `--reverse=1`: what
-- `SessionState::chain` of one does to the bytes that the other puts on the TCP connection.
use msg.Prelude.{
  ℕ, ◌≡◌, refl, sym, ap, ◌∙◌, subst, true, false, some, List, [], ◌++◌, All, append-nil, ok,
  ok_injective, some_inj,
}
use msg.Bytes.{ByteVector}
use msg.Random.{Random}
use msg.Crypto.{Crypto}
use msg.Tunnel.Stream.Delivery.{Connection, Event, deliver, step, run, run-delivers}
use msg.Tunnel.Chain.{ProcessorChain, on_local_data, on_remote_data}
use msg.Tunnel.Chain.Linked.{Outbound, Inbound, Outbound-IsCodec, Inbound-IsCodec}
use msg.Tunnel.Config.{Draws, build_processor_chain}
use msg.Tunnel.Config.Mirror.{IsForward, mirrored}

-- A connection over which nothing has gone.
abbrev pub start : {P : Type 0} → P → P → Connection P
start s r = record { sender = s; receiver = r; wire = []; sent = []; delivered = [] }

module _ (R : Random) (C : Crypto) where
  in_step :
      (draws draws' : ℕ → Draws C) (specs : List ByteVector) (entry exit : ProcessorChain R C)
      → build_processor_chain R C draws specs false ≡ ok (some entry)
      → build_processor_chain R C draws' specs true ≡ ok (some exit)
      → All (IsForward R C) entry
      → Outbound R C entry exit [] [] × Inbound R C exit entry [] []
  in_step draws draws' specs entry exit e e' f =
      let (qs, built, there, back) = mirrored R C draws draws' specs entry e f in
      let same : qs ≡ exit = some_inj (ok_injective (sym built ∙ e')) in
      (
        subst (λ q. Outbound R C entry q [] []) same there,
        subst (λ q. Inbound R C q entry [] []) same back,
      )

  module _ (draws draws' : ℕ → Draws C) (specs : List ByteVector) (entry exit : ProcessorChain R C)
      (entry_built : build_processor_chain R C draws specs false ≡ ok (some entry))
      (exit_built : build_processor_chain R C draws' specs true ≡ ok (some exit))
      (forward : All (IsForward R C) entry) (es : List Event)
      (c : Connection (ProcessorChain R C)) where
    -- Both nodes build their chain from one list of specifications, the exit node with the global
    -- reverse flag; no processor of the entry node has the flag from an argument of its own or a
    -- chunk size of 0. Local data goes through the entry node's `on_local_data`, and the exit node's
    -- `on_local_data` reads the connection in pieces of any size, interleaved with the sending. If
    -- no call of this run threw, then what has come out is a prefix of what went in, and the exit
    -- node's next read, of any size, succeeds.
    pub outbound_in_order :
        run (on_local_data R C) (on_local_data R C) (start entry exit) es ≡ ok c
        → (n : ℕ)
        → ((rest : ByteVector) × (c.sent ≡ c.delivered ++ rest))
          × ((d : Connection (ProcessorChain R C)) × (step
                  (on_local_data R C)
                  (on_local_data R C)
                  c
                  (deliver n)
                ≡ ok d))
    outbound_in_order e n =
        let linked = (in_step draws draws' specs entry exit entry_built exit_built forward).0 in
        let (rest, prefix, _, next) =
          run-delivers (Outbound-IsCodec R C) (start entry exit) es c linked refl e in
        ((rest, prefix), next n)

    -- In the same setting, once the exit node has read every byte on the connection it has put out
    -- exactly the bytes that went in.
    pub outbound_complete :
        run (on_local_data R C) (on_local_data R C) (start entry exit) es ≡ ok c
        → c.wire ≡ []
        → c.delivered ≡ c.sent
    outbound_complete e empty =
        let linked = (in_step draws draws' specs entry exit entry_built exit_built forward).0 in
        let (rest, prefix, settled, _) =
          run-delivers (Outbound-IsCodec R C) (start entry exit) es c linked refl e in
        sym (prefix ∙ ap (◌++◌ c.delivered) (settled empty) ∙ append-nil c.delivered)

    -- The way back: the exit node's `on_remote_data` sends and the entry node's `on_remote_data`
    -- reads, in pieces of any size. If no call of the run threw, then what has come out is a prefix
    -- of what went in, and the entry node's next read, of any size, succeeds.
    pub inbound_in_order :
        run (on_remote_data R C) (on_remote_data R C) (start exit entry) es ≡ ok c
        → (n : ℕ)
        → ((rest : ByteVector) × (c.sent ≡ c.delivered ++ rest))
          × ((d : Connection (ProcessorChain R C)) × (step
                  (on_remote_data R C)
                  (on_remote_data R C)
                  c
                  (deliver n)
                ≡ ok d))
    inbound_in_order e n =
        let linked = (in_step draws draws' specs entry exit entry_built exit_built forward).1 in
        let (rest, prefix, _, next) =
          run-delivers (Inbound-IsCodec R C) (start exit entry) es c linked refl e in
        ((rest, prefix), next n)

    -- On the way back too, once the entry node has read every byte on the connection it has put out
    -- exactly the bytes that the exit node was given.
    pub inbound_complete :
        run (on_remote_data R C) (on_remote_data R C) (start exit entry) es ≡ ok c
        → c.wire ≡ []
        → c.delivered ≡ c.sent
    inbound_complete e empty =
        let linked = (in_step draws draws' specs entry exit entry_built exit_built forward).1 in
        let (rest, prefix, settled, _) =
          run-delivers (Inbound-IsCodec R C) (start exit entry) es c linked refl e in
        sym (prefix ∙ ap (◌++◌ c.delivered) (settled empty) ∙ append-nil c.delivered)
