-- ===== src/Cli.antt =====
-- `main` of cli/src/main.cpp behind the parser, and `send_udp` of lib/src/udp_sender.cpp.
pub mod Dispatch
use msg.Prelude.{ℕ, Bool, true, false, Option, none, some, List, [], ◌∷◌, if◌then◌else◌}
use msg.Bytes.{Byte, ByteVector}

-- What CLI11 has stored for the options, and which subcommands it has parsed.
pub record Options : Type 0 where
  pub show_about : Bool
  pub relay_parsed : Bool
  pub relay_server : ByteVector
  pub relay_server_port : ℕ
  pub relay_id : ByteVector
  pub relay_listen : ByteVector
  pub relay_target : ByteVector
  pub relay_is_server : Bool
  pub relay_is_visitor : Bool
  pub relay_is_provider : Bool
  pub tunnel_parsed : Bool
  pub tunnel_listen : ByteVector
  pub tunnel_remote : ByteVector
  pub tunnel_processors : List ByteVector
  pub tunnel_reverse : Bool
  pub send_parsed : Bool
  pub send_ip : ByteVector
  pub send_port : ℕ
  pub send_message : ByteVector
  pub serve_parsed : Bool
  pub serve_port : ℕ

-- The messages of `main` on the error stream.
pub data Complaint : Type 0 where
  listen_required : Complaint
  target_required : Complaint
  role_required : Complaint
  connect_required : Complaint

-- What `main` calls, or what it prints before it fails.
pub data Action : Type 0 where
  about : Action
  run_server : ℕ → Action
  run_node : ByteVector → ℕ → ByteVector → Byte → ByteVector → Action
  run_tunnel : ByteVector → ByteVector → List ByteVector → Bool → Action
  send_udp : ByteVector → ℕ → ByteVector → Action
  serve_udp : ℕ → Action
  help : Action
  fail : Complaint → Action

abbrev pub empty : ByteVector → Bool
empty [] = true
empty (b ∷ bs) = false

-- With the role and its address: the call of `run_node`.
unfoldable pub connect_node : Options → Byte → ByteVector → Action
connect_node o role extra =
    if empty o.relay_server
    then fail connect_required
    else run_node o.relay_server o.relay_server_port o.relay_id role extra

unfoldable pub run_relay : Options → Action
run_relay o =
    if o.relay_is_server
    then run_server o.relay_server_port
    else if o.relay_is_visitor
    then if empty o.relay_listen then fail listen_required else connect_node o b'B' o.relay_listen
    else if o.relay_is_provider
    then if empty o.relay_target then fail target_required else connect_node o b'C' o.relay_target
    else fail role_required

-- In the order of the source's tests.
unfoldable pub dispatch : Options → Action
dispatch o =
    if o.show_about
    then about
    else if o.relay_parsed
    then run_relay o
    else if o.tunnel_parsed
    then run_tunnel o.tunnel_listen o.tunnel_remote o.tunnel_processors o.tunnel_reverse
    else if o.send_parsed
    then send_udp o.send_ip o.send_port o.send_message
    else if o.serve_parsed
    then serve_udp o.serve_port
    else help
