-- ===== src/Relay/Node.antt =====
-- `run_node` of relay.cpp: the registration of a node with the server, up to its role's coroutine.
pub mod Registering
pub mod Endpoint
use msg.Prelude.{
  ℕ, suc, ◌+◌, Bool, true, false, not, ◌&&◌, ◌||◌, Option, none, some, List, [], ◌∷◌, ◌++◌, length,
  get_or, take, drop, ltb, ◌==◌, if◌then◌else◌, Result, ok, throws, stream_ended, system_error,
  ◌>>=◌,
}
use msg.Bytes.{Byte, ByteVector}
use msg.Bytes.BigEndian.{word_at}
use msg.Tunnel.Text.{rfind}
use msg.Tunnel.Launch.{port_of}
use msg.Relay.Frame.{build_frame_bytes, register_method, ready_method}

-- What the node meets: whether `make_address` takes the server's address, whether `connect` and the
-- write of REGISTER succeed, and all the bytes that the server sends before the connection ends.
pub record Surroundings : Type 0 where
  pub is_address : Bool
  pub connects : Bool
  pub writes : Bool
  pub reply : ByteVector

-- The node has returned with a message in the log; or it runs its role's coroutine, with what it has
-- sent and what the server's reply leaves to be read.
pub data Outcome : Type 0 where
  wrong_role : Outcome
  unreachable : Outcome
  rejected : ByteVector → Outcome
  running : Byte → ByteVector → ByteVector → Outcome

-- REGISTER
unfoldable pub registration : ByteVector → Byte → ByteVector
registration id role = build_frame_bytes register_method (id ++ b' ' ∷ role ∷ [])

-- The wait for READY: whether it has come, and what stands behind the reply.
unfoldable pub read_reply : ByteVector → Result (Bool × ByteVector)
read_reply reply =
    let len = word_at (get_or reply 0 0) (get_or reply 1 0) (get_or reply 2 0) (get_or reply 3 0) in
    let payload = drop 4 reply in
    if ltb (length reply) 4
    then throws stream_ended
    else if ltb (length payload) len
    then throws stream_ended
    else ok (not (ltb len 1) && get_or (take len payload) 0 0 == ready_method, drop len payload)

-- With the reply read.
unfoldable pub follow : ByteVector → Byte → Bool × ByteVector → Outcome
follow sent role (true, rest) = running role sent rest
follow sent role (false, rest) = rejected sent

unfoldable pub run_node : Surroundings → ByteVector → Byte → Result Outcome
run_node w id role =
    if not (role == b'B') && not (role == b'C')
    then ok wrong_role
    else if not w.is_address
    then throws system_error
    else if not w.connects
    then ok unreachable
    else if not w.writes
    then throws system_error
    else read_reply w.reply >>= λ r. ok (follow (registration id role) role r)

-- The address at the head of `run_visitor` and `run_provider`, with `asio::ip::make_address`, which
-- throws where this is `none`: with the position of the last colon.
unfoldable pub endpoint_at :
    {Address : Type 0}
    → (ByteVector → Option Address)
    → ByteVector
    → Option ℕ
    → Result (Option (Address × ℕ))
endpoint_at make_address text none = ok none
endpoint_at make_address text (some colon) = do
  port ← port_of (drop (suc colon) text)
  elim (make_address (take colon text)) [
    | none ↦ throws system_error
    | some a ↦ ok (some (a, port))
  ]

unfoldable pub endpoint_of :
    {Address : Type 0} → (ByteVector → Option Address) → ByteVector → Result (Option (Address × ℕ))
endpoint_of make_address text = endpoint_at make_address text (rfind b':' text)
