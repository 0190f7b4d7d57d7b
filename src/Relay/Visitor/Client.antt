-- ===== src/Relay/Visitor/Client.antt =====
-- One session of the visitor: `ClientSession` of relay.cpp and the coroutine that `run_visitor` starts
-- for it when NEW_SESSION has been sent.
use msg.Prelude.{Bool, true, false, ◌||◌, List, [], ◌∷◌, ◌++◌, if◌then◌else◌}
use msg.Bytes.{ByteVector}
use msg.Relay.Frame.{
  Frame, build_uuid_data_body, new_session_method, data_method, data_eof_method,
  session_close_method,
}

-- What follows when `aconn_write` of the pump has returned.
pub data Next : Type 0 where
  read_on : Next
  after_eof : Next
  after_close : Next

-- What the coroutine awaits. It is unstarted while the accept loop sends NEW_SESSION, and then spawned
-- until it begins to run.
pub data Task : Type 0 where
  unstarted : Task
  spawned : Task
  reading : Task
  sending : Next → Task
  finished : Task

-- `sent` holds every frame that has been handed to `aconn_write` for this client: NEW_SESSION by the
-- accept loop, SESSION_CLOSE also by the loop over the frames, and the others by the coroutine.
-- `received` is what has been read from the client, and `written` what has been written to it by writes
-- that have ended well.
pub record ClientSession : Type 0 where
  pub uuid : ByteVector
  pub half_close_recv : Bool
  pub half_close_send : Bool
  pub closed : Bool
  pub client_open : Bool
  pub client_shut : Bool
  pub task : Task
  pub sent : List Frame
  pub received : ByteVector
  pub written : ByteVector

-- An accepted client, with NEW_SESSION handed to `aconn_write`.
unfoldable pub new_client : ByteVector → ClientSession
new_client uuid = record {
  uuid = uuid;
  half_close_recv = false;
  half_close_send = false;
  closed = false;
  client_open = true;
  client_shut = false;
  task = unstarted;
  sent = record { method = new_session_method; body = uuid } ∷ [];
  received = [];
  written = [];
}

-- The beginning, `aconn_write` (which never throws) and `async_read_some`. An error comes with the bytes
-- that the count tells of: none, as asio documents, but the code tests the count.
pub data Completion : Type 0 where
  begun : Completion
  frame_sent : Completion
  received_bytes : ByteVector → Completion
  end_of_file : Completion
  read_failed : ByteVector → Completion

-- A step gives the session, and whether its entry is erased from `sessions`.
abbrev pub Step : Type 0
Step = ClientSession × Bool

-- `aconn_write` is called with a frame, and awaited.
unfoldable pub hand : ClientSession → Frame → Next → ClientSession
hand s frame next = record s { sent = s.sent ++ frame ∷ []; task = sending next }

-- Behind the pump's loop
unfoldable pub leave : ClientSession → Step
leave s = (record s { task = finished }, s.closed)

-- The test of the pump's `while`
unfoldable pub pump_head : ClientSession → Step
pump_head s = if s.closed then leave s else (record s { task = reading }, false)

-- What the pump makes of a read, whose count is tested before its error code: an error without bytes
-- is taken for the end of the file.
unfoldable pub after_read : ClientSession → Completion → ClientSession
after_read s (received_bytes (b ∷ bs)) =
    hand (record s { received = s.received ++ b ∷ bs })
      (record { method = data_method; body = build_uuid_data_body s.uuid (b ∷ bs) }) read_on
after_read s (read_failed (b ∷ bs)) =
    hand s (record { method = session_close_method; body = s.uuid }) after_close
after_read s _ =
    hand (record s { half_close_send = true }) (record { method = data_eof_method; body = s.uuid })
      after_eof

unfoldable pub after_send : ClientSession → Next → Step
after_send s read_on = pump_head s
after_send s after_eof = leave (record s { closed = s.closed || s.half_close_recv })
after_send s after_close = leave (record s { closed = true })

-- One completion. A completion of something that is not awaited does not come.
unfoldable pub complete : ClientSession → Task → Completion → Step
complete s spawned begun = pump_head s
complete s reading (received_bytes bs) = (after_read s (received_bytes bs), false)
complete s reading end_of_file = (after_read s end_of_file, false)
complete s reading (read_failed bs) = (after_read s (read_failed bs), false)
complete s (sending next) frame_sent = after_send s next
complete s _ _ = (s, false)

unfoldable pub task_step : ClientSession → Completion → Step
task_step s e = complete s s.task e

-- `co_spawn`, once, for a session whose coroutine is unstarted
unfoldable pub spawn : ClientSession → Task → ClientSession
spawn s unstarted = record s { task = spawned }
spawn s _ = s
