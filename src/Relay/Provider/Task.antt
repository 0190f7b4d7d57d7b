-- ===== src/Relay/Provider/Task.antt =====
-- One session of the provider: `SessionState` of relay.cpp and the coroutine that `run_provider` starts
-- for it. The coroutine runs until it awaits something; a completion is the end of what it awaits.
use msg.Prelude.{Bool, true, false, ◌||◌, List, [], ◌∷◌, ◌++◌, if◌then◌else◌}
use msg.Bytes.{ByteVector}
use msg.Relay.Frame.{
  Frame, build_uuid_data_body, session_ok_method, session_err_method, data_method, data_eof_method,
  session_close_method,
}

-- What follows when `aconn_write` of the pump has returned.
pub data Next : Type 0 where
  read_on : Next
  after_eof : Next
  after_close : Next

-- What the coroutine awaits.
pub data Task : Type 0 where
  connecting_to : Task
  reporting_error : Task
  reporting_ok : Task
  draining : List ByteVector → Task
  reading : Task
  sending : Next → Task
  finished : Task

-- `sent` holds the frames that the coroutine has handed to `aconn_write`, `received` what it has read
-- from the remote, and `written` what has been written to the remote by writes that have ended well.
pub record SessionState : Type 0 where
  pub uuid : ByteVector
  pub arrival_buffer : List ByteVector
  pub remote_connected : Bool
  pub connecting : Bool
  pub half_close_recv : Bool
  pub half_close_send : Bool
  pub closed : Bool
  pub remote_open : Bool
  pub remote_shut : Bool
  pub task : Task
  pub sent : List Frame
  pub received : ByteVector
  pub written : ByteVector

-- On FORWARD_SESSION, with the coroutine up to `async_connect`.
unfoldable pub new_session : ByteVector → SessionState
new_session uuid = record {
  uuid = uuid;
  arrival_buffer = [];
  remote_connected = false;
  connecting = true;
  half_close_recv = false;
  half_close_send = false;
  closed = false;
  remote_open = false;
  remote_shut = false;
  task = connecting_to;
  sent = [];
  received = [];
  written = [];
}

-- `async_connect`, `aconn_write` (which never throws), `async_write` and `async_read_some`
pub data Completion : Type 0 where
  connected : Completion
  connect_failed : Completion
  frame_sent : Completion
  wrote : Completion
  write_failed : Completion
  received_bytes : ByteVector → Completion
  end_of_file : Completion
  read_failed : ByteVector → Completion

-- `aconn_write` is called with a frame, and awaited.
unfoldable pub report : SessionState → Frame → Task → SessionState
report s frame task = record s { sent = s.sent ++ frame ∷ []; task = task }

-- A step gives the session, and whether its entry is erased from `sessions`.
abbrev pub Step : Type 0
Step = SessionState × Bool

-- The test of the pump's `while`, and what stands behind the loop.
unfoldable pub pump_head : SessionState → Step
pump_head s =
    if s.closed then (record s { task = finished }, true) else (record s { task = reading }, false)

-- The loop over `arrival_buffer` with these buffers left, and what follows it.
unfoldable pub drain_next : SessionState → List ByteVector → Step
drain_next s (b ∷ bs) = (record s { task = draining (b ∷ bs) }, false)
drain_next s [] =
    pump_head (record s { arrival_buffer = []; remote_shut = s.remote_shut || s.half_close_recv })

-- What the pump makes of a read, whose count is tested before its error code: an error without bytes
-- is taken for the end of the file.
unfoldable pub after_read : SessionState → Completion → SessionState
after_read s (received_bytes (b ∷ bs)) =
    report (record s { received = s.received ++ b ∷ bs })
      (record { method = data_method; body = build_uuid_data_body s.uuid (b ∷ bs) })
      (sending read_on)
after_read s (read_failed (b ∷ bs)) =
    report s (record { method = session_close_method; body = s.uuid }) (sending after_close)
after_read s _ =
    report (record s { half_close_send = true })
      (record { method = data_eof_method; body = s.uuid }) (sending after_eof)

unfoldable pub after_send : SessionState → Next → Step
after_send s read_on = pump_head s
after_send s after_eof =
    (record s { closed = s.closed || s.half_close_recv; task = finished }, true)
after_send s after_close = (record s { closed = true; task = finished }, true)

abbrev ends_read : Completion → Bool
ends_read (received_bytes bs) = true
ends_read end_of_file = true
ends_read (read_failed bs) = true
ends_read _ = false

-- One completion. A completion of something that is not awaited does not come. A failed write of
-- the drain throws out of the coroutine.
unfoldable pub complete : SessionState → Task → Completion → Step
complete s connecting_to connected = (
  report (record s { remote_connected = true; connecting = false; remote_open = true })
      (record { method = session_ok_method; body = s.uuid }) reporting_ok,
  false,
)
complete s connecting_to connect_failed =
    (report s (record { method = session_err_method; body = s.uuid }) reporting_error, false)
complete s reporting_error frame_sent = (record s { closed = true; task = finished }, true)
complete s reporting_ok frame_sent = drain_next s s.arrival_buffer
complete s (draining (b ∷ bs)) wrote = drain_next (record s { written = s.written ++ b }) bs
complete s (draining bs) write_failed = (record s { task = finished }, false)
complete s reading e = if ends_read e then (after_read s e, false) else (s, false)
complete s (sending next) frame_sent = after_send s next
complete s _ _ = (s, false)

unfoldable pub task_step : SessionState → Completion → Step
task_step s e = complete s s.task e
