-- ===== src/Examples/Launches.antt =====
-- The start of a tunnel, clients that come to it, and a command line.
use msg.Prelude.{ℕ, ◌≡◌, refl, Bool, true, false, Option, some, List, [], ◌∷◌, All, ok, arith}
use msg.Bytes.{ByteVector}
use msg.Tunnel.Text.{codes, digits_from}
use msg.Tunnel.Text.Numbers.{IsDigit}
use msg.Tunnel.Chain.{ProcessorChain, add}
use msg.Tunnel.Processor.{identity}
use msg.Tunnel.Config.{Draws, build_processor_chain}
use msg.Tunnel.Launch.{
  listening, run_tunnel, Event, accepted, connected, connect_failed, do_accept, new_acceptor,
}
use msg.Tunnel.Launch.Addresses.{address_text, listens_where_told}
use msg.Tunnel.Launch.Accepting.{
  IsFresh, Climbs, is_stopped, each_session_own_chain, accept_loop_goes_on,
}
use msg.Examples.Setup.{counting, toy}

abbrev some_draws : ℕ → Draws toy
some_draws i = record { now = 1; device_high = 2; device_low = 3; entropy = i }

abbrev plain_chain : ProcessorChain counting toy
plain_chain = record { codec = identity; reverse = false } ∷ []

abbrev any_address : ByteVector → Option ByteVector
any_address text = some text

abbrev any_endpoint : ByteVector × ℕ → Bool
any_endpoint endpoint = true

digits_80 : All IsDigit (codes "8080")
digits_80 = (
  (omega arith, omega arith),
  ((omega arith, omega arith), ((omega arith, omega arith), ((omega arith, omega arith), tt))),
)

digits_70 : All IsDigit (codes "70000")
digits_70 = (
  (omega arith, omega arith),
  (
    (omega arith, omega arith),
    ((omega arith, omega arith), ((omega arith, omega arith), ((omega arith, omega arith), tt))),
  ),
)

listens_where_told_example :
    run_tunnel any_address any_endpoint counting toy some_draws
      (address_text (codes "::1") (codes "8080"))
      (address_text (codes "10.0.0.1") (codes "70000"))
      []
      false
    ≡ ok (listening (codes "::1", 8080) (codes "10.0.0.1", 4464))
unfolding build_processor_chain add digits_from
listens_where_told_example =
    listens_where_told any_address any_endpoint counting toy some_draws (codes "::1")
      (codes "10.0.0.1") (codes "8080") (codes "70000") (codes "::1") (codes "10.0.0.1") [] false
      plain_chain (digits_80, omega arith) (digits_70, omega arith) refl refl refl refl

abbrev fresh_draws : ℕ → ℕ → Draws toy
fresh_draws id i = record { now = id; device_high = 2; device_low = 3; entropy = i }

abbrev three_clients : List (Event counting toy fresh_draws [] false)
three_clients = accepted true ∷ connect_failed ∷ accepted true ∷ connected ∷ accepted true ∷ []

each_session_own_chain_example :
    let b =
      do_accept counting toy fresh_draws [] false
        (new_acceptor counting toy fresh_draws [] false)
        three_clients in
    All (IsFresh counting toy fresh_draws [] false) b.sessions
    × Climbs counting toy fresh_draws [] false 0 b.sessions b.next_id
each_session_own_chain_example =
    each_session_own_chain counting toy fresh_draws [] false three_clients (omega arith)

accept_loop_goes_on_example :
    is_stopped counting toy fresh_draws [] false
      (do_accept counting toy fresh_draws [] false
        (new_acceptor counting toy fresh_draws [] false)
        three_clients).loop
    ≡ false
unfolding build_processor_chain add
accept_loop_goes_on_example =
    accept_loop_goes_on counting toy fresh_draws [] false some_draws plain_chain three_clients refl
      (refl, (tt, (refl, (tt, (refl, tt)))))
