-- ===== src/Relay/Frame.antt =====
-- The frame codec of relay.cpp: `Method`, `Frame`, `read_frame`, `write_frame`, `build_frame_bytes`
-- and the bodies that begin with a session's identifier.
pub mod RoundTrip
use msg.Prelude.{
  ℕ, ◌+◌, ◌-◌, Option, none, some, List, [], ◌∷◌, ◌++◌, length, get_or, take, drop, ltb,
  if◌then◌else◌, Result, ok, throws, stream_ended,
}
use msg.Bytes.{Byte, ByteVector, u32}
use msg.Bytes.BigEndian.{word_bytes, word_at}

-- An `enum` over a byte: a frame that is read may hold any byte.
abbrev pub Method : Type 0
Method = Byte

abbrev pub register_method : Method
register_method = 1

abbrev pub ready_method : Method
ready_method = 2

abbrev pub new_session_method : Method
new_session_method = 3

abbrev pub forward_session_method : Method
forward_session_method = 4

abbrev pub session_ok_method : Method
session_ok_method = 5

abbrev pub session_err_method : Method
session_err_method = 6

abbrev pub data_method : Method
data_method = 16

abbrev pub data_eof_method : Method
data_eof_method = 17

abbrev pub session_close_method : Method
session_close_method = 18

-- `EOF_`
abbrev pub eof_method : Method
eof_method = 255

abbrev pub uuid_bytes : ℕ
uuid_bytes = 36

pub record Frame : Type 0 where
  pub method : Method
  pub body : ByteVector

-- `write_frame`: the bytes of its three buffers
unfoldable pub write_frame : Method → ByteVector → ByteVector
write_frame method bytes = word_bytes (u32 (1 + length bytes)) ++ (method ∷ [] ++ bytes)

-- `build_frame_bytes`: header and method are pushed, and then the data, unless there is none.
unfoldable pub build_frame_bytes : Method → ByteVector → ByteVector
build_frame_bytes method bytes =
    let frame = word_bytes (u32 (1 + length bytes)) ++ method ∷ [] in
    if ltb 0 (length bytes) then frame ++ bytes else frame

-- `build_uuid_data_body`
unfoldable pub build_uuid_data_body : ByteVector → ByteVector → ByteVector
build_uuid_data_body uuid bytes = if ltb 0 (length bytes) then uuid ++ bytes else uuid

-- The frame of a payload that has been read whole.
abbrev pub frame_of : ByteVector → Frame
frame_of payload = record { method = get_or payload 0 0; body = drop 1 payload }

-- `read_frame` on all the bytes that the socket still brings before it ends or fails: the frame and
-- what stands behind it. The header is read with an error code, the payload with an exception.
unfoldable pub read_frame : ByteVector → Result (Option (Frame × ByteVector))
read_frame input =
    let len = word_at (get_or input 0 0) (get_or input 1 0) (get_or input 2 0) (get_or input 3 0) in
    let payload = drop 4 input in
    if ltb (length input) 4
    then ok none
    else if ltb len 1
    then ok none
    else if ltb (length payload) len
    then throws stream_ended
    else ok (some (frame_of (take len payload), drop len payload))
