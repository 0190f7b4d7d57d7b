-- ===== src/Cli/Dispatch.antt =====
-- What reaches the relay's nodes from the command line.
use msg.Prelude.{◌≡◌, refl, ◌⊎◌, inl, inr, Bool, true, false, if◌then◌else◌, Bool-cases}
use msg.Bytes.{Byte, ByteVector}
use msg.Cli.{
  Options, Action, about, run_server, run_node, run_tunnel, send_udp, serve_udp, help, fail,
  listen_required, target_required, role_required, empty, connect_node, run_relay, dispatch,
}

-- The arguments of a call of `run_node`.
abbrev pub IsComplete : Options → Action → Type 0
IsComplete o (run_node server port id role extra) =
    (empty server ≡ false)
    × ((empty extra ≡ false)
        × (((role ≡ b'B') × (extra ≡ o.relay_listen)) ⊎ ((role ≡ b'C') × (extra ≡ o.relay_target))))
IsComplete o _ = Unit

connect_IsComplete :
    (o : Options) (role : Byte) (extra : ByteVector)
    → empty extra ≡ false
    → ((role ≡ b'B') × (extra ≡ o.relay_listen)) ⊎ ((role ≡ b'C') × (extra ≡ o.relay_target))
    → IsComplete o (connect_node o role extra)
unfolding connect_node
connect_IsComplete o role extra full r = elim (Bool-cases (empty o.relay_server)) [
  | inl none ↦ rw none tt
  | inr some ↦ rw some (some, (full, r))
]

run_relay-IsComplete : (o : Options) → IsComplete o (run_relay o)
unfolding run_relay
run_relay-IsComplete o =
    by_flags o.relay_is_server o.relay_is_visitor o.relay_is_provider
      (Bool-cases (empty o.relay_listen)) (Bool-cases (empty o.relay_target))
  where
    by_flags :
        (server visitor provider : Bool)
        → (empty o.relay_listen ≡ true) ⊎ (empty o.relay_listen ≡ false)
        → (empty o.relay_target ≡ true) ⊎ (empty o.relay_target ≡ false)
        → IsComplete o (
            if server
            then run_server o.relay_server_port
            else if visitor
            then if empty o.relay_listen
              then fail listen_required
              else connect_node o b'B' o.relay_listen
            else if provider
            then if empty o.relay_target
              then fail target_required
              else connect_node o b'C' o.relay_target
            else fail role_required)
    by_flags true _ _ _ _ = tt
    by_flags false true _ (inl e) _ = rw e tt
    by_flags false true _ (inr e) _ =
        rw e (connect_IsComplete o b'B' o.relay_listen e (inl (refl, refl)))
    by_flags false false true _ (inl e) = rw e tt
    by_flags false false true _ (inr e) =
        rw e (connect_IsComplete o b'C' o.relay_target e (inr (refl, refl)))
    by_flags false false false _ _ = tt

-- Whatever the options are, a call of `run_node` gets a server and an address that are not empty, and
-- the role B with the visitor's address or C with the provider's.
pub nodes_are-IsComplete : (o : Options) → IsComplete o (dispatch o)
unfolding dispatch
nodes_are-IsComplete o =
    by_flags o.show_about o.relay_parsed o.tunnel_parsed o.send_parsed o.serve_parsed
  where
    by_flags :
        (about_flag relay tunnel send serve : Bool)
        → IsComplete o (
            if about_flag
            then about
            else if relay
            then run_relay o
            else if tunnel
            then run_tunnel o.tunnel_listen o.tunnel_remote o.tunnel_processors o.tunnel_reverse
            else if send
            then send_udp o.send_ip o.send_port o.send_message
            else if serve
            then serve_udp o.serve_port
            else help)
    by_flags true _ _ _ _ = tt
    by_flags false true _ _ _ = run_relay-IsComplete o
    by_flags false false true _ _ = tt
    by_flags false false false true _ = tt
    by_flags false false false false true = tt
    by_flags false false false false false = tt
