-- ===== src/Tunnel/Stream.antt =====
-- What a processor promises: processor.hpp. A pair of processors, one packing and one unpacking,
-- is a codec of a byte stream that TCP may cut anywhere.
pub mod Pipeline
pub mod Delivery
use msg.Prelude.{◌≡◌, List, [], ◌++◌, flatten, Result, ok}
use msg.Bytes.{ByteVector}

-- `DataBuffer`, a struct with a byte vector for its only member
abbrev pub DataBuffer : Type 0
DataBuffer = ByteVector

abbrev pub DataBufferList : Type 0
DataBufferList = List DataBuffer

-- The bytes of the buffers, in the order in which they are written to a socket.
abbrev pub stream : DataBufferList → ByteVector
unfolding flatten
stream = flatten

-- `pack` or `unpack` of a processor in state `P`: the new state, and the buffers that it appends.
abbrev pub Transform : Type 0 → Type 0
Transform P = P → ByteVector → Result (P × DataBufferList)

-- `Linked s r wire owed`: a receiver in state `r` that reads `wire` will have put out `owed` and
-- will be in step with the sender in state `s`.
pub record IsCodec {P : Type 0} (pack unpack : Transform P)
    (Linked : P → P → ByteVector → ByteVector → Type 0) : Type 0 where
  pub sends :
      (s r : P) (wire owed x : ByteVector) (s' : P) (out : DataBufferList)
      → Linked s r wire owed
      → pack s x ≡ ok (s', out)
      → Linked s' r (wire ++ stream out) (owed ++ x)
  pub receives :
      (s r : P) (here later owed : ByteVector)
      → Linked s r (here ++ later) owed
      → (r' : P) × (out : DataBufferList) × (owed' : ByteVector) × (unpack r here ≡ ok (r', out))
        × (owed ≡ stream out ++ owed')
        × Linked s r' later owed'
  pub settles : (s r : P) (owed : ByteVector) → Linked s r [] owed → owed ≡ []
