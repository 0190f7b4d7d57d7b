-- ===== src/Tunnel/Launch.antt =====
-- `run_tunnel` and `do_accept` of tunnel.cpp: the addresses, and the loop that accepts clients.
pub mod Addresses
pub mod Accepting
use msg.Prelude.{
  ℕ, suc, ◌+◌, ◌%◌, ◌^◌, Bool, true, false, Option, none, some, List, [], ◌∷◌, ◌++◌, take, drop,
  if◌then◌else◌, Result, ok, throws, diverges, ◌>>=◌, system_error,
}
use msg.Bytes.{ByteVector, u64}
use msg.Random.{Random}
use msg.Crypto.{Crypto}
use msg.Tunnel.Text.{rfind, stoull}
use msg.Tunnel.Chain.{ProcessorChain}
use msg.Tunnel.Config.{Draws, build_processor_chain}
use msg.Tunnel.Session.{SessionState, new_session}

-- `std::stoul` and the cast to `uint16_t`
unfoldable pub port_of : ByteVector → Result ℕ
port_of s = stoull s >>= λ n. ok (n % 2 ^ 16)

-- Why `run_tunnel` returns with a message in the log.
pub data Complaint : Type 0 where
  invalid_address : Complaint
  invalid_port : Complaint
  invalid_processors : Complaint

-- `asio::ip::make_address`, which throws where this is `none`, and whether an acceptor can be opened.
module _ {Address : Type 0} (make_address : ByteVector → Option Address)
    (opens : Address × ℕ → Bool) where
  pub data Start : Type 0 where
    refused : Complaint → Start
    listening : Address × ℕ → Address × ℕ → Start

  -- With both addresses read: the acceptor is opened.
  unfoldable pub open_acceptor : Option Address → ℕ → Option Address → ℕ → Result Start
  open_acceptor (some a) listen_port (some b) remote_port =
      if opens (a, listen_port)
      then ok (listening (a, listen_port) (b, remote_port))
      else throws system_error
  open_acceptor _ listen_port _ remote_port = throws system_error

  -- With what the check of the processors has come to; an exception of it is not caught.
  unfoldable pub check_chain : {A : Type 0} → Result (Option A) → Result Start → Result Start
  check_chain built next =
      built >>= λ chain. elim chain [ none ↦ ok (refused invalid_processors) | some c ↦ next ]

  -- With both ports read, or an exception.
  unfoldable pub with_ports : Result (ℕ × ℕ) → (ℕ → ℕ → Result Start) → Result Start
  with_ports (ok (l, r)) next = next l r
  with_ports (throws e) next = ok (refused invalid_port)
  with_ports diverges next = diverges

  module _ (R : Random) (C : Crypto) (draws : ℕ → Draws C) where
    -- With the positions of the last colons.
    unfoldable pub start_at :
        ByteVector → ByteVector → List ByteVector → Bool → Option ℕ → Option ℕ → Result Start
    start_at listen remote specs backwards (some c₁) (some c₂) =
        with_ports
          (do l ← port_of (drop (suc c₁) listen); r ← port_of (drop (suc c₂) remote); ok (l, r))
          (λ l r.
            check_chain (build_processor_chain R C draws specs backwards)
              (open_acceptor (make_address (take c₁ listen)) l (make_address (take c₂ remote)) r))
    start_at listen remote specs backwards _ _ = ok (refused invalid_address)

    -- Up to the first `async_accept`.
    unfoldable pub run_tunnel : ByteVector → ByteVector → List ByteVector → Bool → Result Start
    run_tunnel listen remote specs backwards =
        start_at listen remote specs backwards (rfind b':' listen) (rfind b':' remote)

-- `draws id` is what the processors of connection `id` may draw.
module _ (R : Random) (C : Crypto) (draws : ℕ → ℕ → Draws C) (specs : List ByteVector)
    (backwards : Bool) where
  -- What `do_accept` awaits, or it has been left.
  pub data Loop : Type 0 where
    accepting : Loop
    connecting : ℕ → ProcessorChain R C → Loop
    stopped : Loop

  -- `sessions` are those that `start_session` has been called with.
  pub record Acceptor : Type 0 where
    pub loop : Loop
    pub next_id : ℕ
    pub sessions : List (ℕ × SessionState R C)

  -- A client, whose endpoint can be asked for or cannot (which throws out of the coroutine); no client;
  -- and the outcomes of `async_connect`.
  pub data Event : Type 0 where
    accepted : Bool → Event
    accept_failed : Event
    connected : Event
    connect_failed : Event

  -- With what `build_processor_chain` has come to: an exception ends the coroutine, like `co_return`.
  unfoldable pub use_chain : Acceptor → ℕ → Result (Option (ProcessorChain R C)) → Acceptor
  use_chain a id (ok (some c)) = record a { loop = connecting id c }
  use_chain a id _ = record a { loop = stopped }

  -- A client has been accepted.
  unfoldable pub take_client : Acceptor → Bool → Acceptor
  take_client a named =
      let id = a.next_id in
      let b : Acceptor = record a { next_id = u64 (id + 1) } in
      if named
      then use_chain b id (build_processor_chain R C (draws id) specs backwards)
      else record b { loop = stopped }

  -- What the loop makes of an event. One that it does not await does not come.
  unfoldable pub advance : Acceptor → Loop → Event → Acceptor
  advance a accepting (accepted named) = take_client a named
  advance a accepting accept_failed = record a { loop = stopped }
  advance a (connecting id c) connected = record a {
    loop = accepting;
    sessions = a.sessions ++ (id, new_session R C c) ∷ [];
  }
  advance a (connecting id c) connect_failed = record a { loop = accepting }
  advance a _ _ = a

  unfoldable pub do_accept : Acceptor → List Event → Acceptor
  do_accept a [] = a
  do_accept a (e ∷ es) = do_accept (advance a a.loop e) es

  abbrev pub new_acceptor : Acceptor
  new_acceptor = record { loop = accepting; next_id = 0; sessions = [] }
