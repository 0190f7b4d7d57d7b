-- ===== src/Relay/Provider.antt =====
-- `run_provider` of relay.cpp: the loop over the frames from the server, and the sessions' coroutines
-- beside it. An event is a frame, the end of a write, or a completion of one coroutine.
pub mod Task
pub mod Sending
pub mod Frames
pub mod Arriving
pub mod Draining
pub mod Ordering
pub mod Ending
pub mod Finishing
use msg.Prelude.{
  ℕ, ◌+◌, Bool, true, false, Option, none, some, List, [], ◌∷◌, ◌++◌, length, take, drop, ltb, ◌==◌,
  if◌then◌else◌,
}
use msg.Bytes.{ByteVector}
use msg.Bytes.Table.{lookup, insert, erase}
use msg.Relay.Frame.{
  Frame, uuid_bytes, forward_session_method, data_method, data_eof_method, session_close_method,
  eof_method,
}
use msg.Relay.Provider.Task.{SessionState, Completion, new_session, task_step}

-- What `run_provider` awaits: a frame, or a write to the remote of a session; or it has returned.
pub data Loop : Type 0 where
  waiting : Loop
  writing : ℕ → ByteVector → Loop
  ended : Loop

-- `shared_ptr<SessionState>` is a number; `objects` is the store, in which `next` is free.
pub record Provider : Type 0 where
  pub sessions : List (ByteVector × ℕ)
  pub objects : ℕ → SessionState
  pub next : ℕ
  pub loop : Loop

abbrev pub update : (ℕ → SessionState) → ℕ → SessionState → ℕ → SessionState
update objects h s k = if k == h then s else objects k

abbrev pub put : ℕ → SessionState → Provider → Provider
put h s p = record p { objects = update p.objects h s }

-- The loop behind the `try` block: each remote that there is, is closed.
unfoldable pub close_remotes : List (ByteVector × ℕ) → (ℕ → SessionState) → ℕ → SessionState
close_remotes [] objects = objects
close_remotes ((uuid, h) ∷ entries) objects =
    close_remotes entries (update objects h (record (objects h) { remote_open = false }))

-- The connection to the server has ended, or a write has thrown.
unfoldable pub end_all : Provider → Provider
end_all p = record p { objects = close_remotes p.sessions p.objects; sessions = []; loop = ended }

-- The body of `case FORWARD_SESSION`
unfoldable pub forward_session : Provider → ByteVector → Provider
forward_session p uuid = record (put p.next (new_session uuid) p) {
  sessions = insert uuid p.next p.sessions;
  next = p.next + 1;
}

-- The body of `case DATA` behind `find`
unfoldable pub take_data : Provider → ByteVector → Option ℕ → Provider
take_data p bytes none = p
take_data p bytes (some h) =
    let s = p.objects h in
    if s.closed
    then p
    else if s.remote_connected
    then record p { loop = writing h bytes }
    else if s.connecting
    then put h (record s { arrival_buffer = s.arrival_buffer ++ bytes ∷ [] }) p
    else p

-- The body of `case DATA_EOF` behind `find`
unfoldable pub take_eof : Provider → ByteVector → Option ℕ → Provider
take_eof p uuid none = p
take_eof p uuid (some h) =
    let s = p.objects h in
    let s' : SessionState = record s {
      half_close_recv = true;
      remote_shut = if s.remote_connected then true else s.remote_shut;
      closed = if s.half_close_send then true else s.closed;
    } in
    let q = put h s' p in
    if s.half_close_send then record q { sessions = erase uuid q.sessions } else q

-- The body of `case SESSION_CLOSE` behind `find`
unfoldable pub take_close : Provider → ByteVector → Option ℕ → Provider
take_close p uuid none = p
take_close p uuid (some h) =
    record (put h (record (p.objects h) { closed = true; remote_open = false }) p) {
      sessions = erase uuid p.sessions;
    }

-- A frame, in the order of the source's tests.
unfoldable pub take_frame : Provider → Frame → Provider
take_frame p f =
    if f.method == eof_method
    then end_all p
    else if f.method == forward_session_method
    then forward_session p f.body
    else if f.method == data_method
    then if ltb (length f.body) uuid_bytes
      then p
      else take_data p (drop uuid_bytes f.body) (lookup (take uuid_bytes f.body) p.sessions)
    else if f.method == data_eof_method
    then take_eof p f.body (lookup f.body p.sessions)
    else if f.method == session_close_method
    then take_close p f.body (lookup f.body p.sessions)
    else p

pub data Event : Type 0 where
  frame : Frame → Event
  server_gone : Event
  write_done : Event
  write_threw : Event
  task : ℕ → Completion → Event

-- A coroutine goes on: its entry is erased under its identifier, whoever holds that by now.
unfoldable pub run_task : Provider → ℕ → Completion → Provider
run_task p h e =
    let (s, gone) = task_step (p.objects h) e in
    record (put h s p) { sessions = if gone then erase s.uuid p.sessions else p.sessions }

-- The end of the write of `case DATA`
unfoldable pub wrote_data : Provider → ℕ → ByteVector → Provider
wrote_data p h bytes =
    let s = p.objects h in
    record (put h (record s { written = s.written ++ bytes }) p) { loop = waiting }

-- What the loop makes of an event. One that it does not await does not come.
unfoldable pub step_loop : Provider → Loop → Event → Provider
step_loop p _ (task h e) = run_task p h e
step_loop p waiting (frame f) = take_frame p f
step_loop p waiting server_gone = end_all p
step_loop p (writing h bytes) write_done = wrote_data p h bytes
step_loop p (writing h bytes) write_threw = end_all p
step_loop p _ _ = p

unfoldable pub step : Provider → Event → Provider
step p e = step_loop p p.loop e

unfoldable pub run : Provider → List Event → Provider
run p [] = p
run p (e ∷ es) = run (step p e) es

-- Before the first frame.
abbrev pub new_provider : Provider
new_provider = record { sessions = []; objects = λ h. new_session []; next = 0; loop = waiting }
