-- ===== src/Relay/Visitor.antt =====
-- `run_visitor` of relay.cpp: the loop over the frames from the server, the accept loop and the
-- clients' coroutines, side by side.
pub mod Client
pub mod Sending
pub mod Frames
pub mod Stored
pub mod Entries
pub mod Serving
pub mod Halves
pub mod Hazards
use msg.Prelude.{
  ℕ, ◌+◌, Bool, true, false, Option, none, some, List, [], ◌∷◌, ◌++◌, length, take, drop, ltb, ◌==◌,
  if◌then◌else◌,
}
use msg.Bytes.{ByteVector}
use msg.Bytes.Table.{lookup, insert, erase}
use msg.Relay.Frame.{
  Frame, uuid_bytes, session_ok_method, session_err_method, data_method, data_eof_method,
  session_close_method, eof_method,
}
use msg.Relay.Visitor.Client.{ClientSession, Completion, Step, spawn, new_client, task_step}

-- What the loop over the frames awaits: a frame, a write to a client, or SESSION_CLOSE being sent after
-- a write that failed; it has returned; or it has used an entry that was gone, which is undefined.
pub data Reader : Type 0 where
  waiting : Reader
  writing : ByteVector → ℕ → ByteVector → Reader
  reporting : ByteVector → ℕ → Reader
  ended : Reader
  undefined : Reader

-- What the accept loop awaits: a client, or NEW_SESSION being sent; or it has been left.
pub data Acceptor : Type 0 where
  accepting : Acceptor
  announcing : ℕ → Acceptor
  stopped : Acceptor

-- `shared_ptr<ClientSession>` is a number; `objects` is the store, in which `next` is free.
pub record Visitor : Type 0 where
  pub sessions : List (ByteVector × ℕ)
  pub objects : ℕ → ClientSession
  pub next : ℕ
  pub reader : Reader
  pub acceptor : Acceptor

abbrev pub update : (ℕ → ClientSession) → ℕ → ClientSession → ℕ → ClientSession
update objects h s k = if k == h then s else objects k

abbrev pub put : ℕ → ClientSession → Visitor → Visitor
put h s v = record v { objects = update v.objects h s }

-- The loops that close every client.
unfoldable pub close_clients : List (ByteVector × ℕ) → (ℕ → ClientSession) → ℕ → ClientSession
close_clients [] objects = objects
close_clients ((uuid, h) ∷ entries) objects =
    close_clients entries (update objects h (record (objects h) { client_open = false }))

abbrev pub clear : Visitor → Visitor
clear v = record v { objects = close_clients v.sessions v.objects; sessions = [] }

-- The connection to the server has ended.
unfoldable pub end_reader : Visitor → Visitor
end_reader v = record (clear v) { reader = ended }

-- `closed` is set, the client is closed, and the entry is erased.
unfoldable pub shut_down : Visitor → ByteVector → ℕ → Visitor
shut_down v uuid h =
    record (put h (record (v.objects h) { closed = true; client_open = false }) v) {
      sessions = erase uuid v.sessions;
    }

-- The body of `case DATA`
unfoldable pub take_data : Visitor → ByteVector → ℕ → ByteVector → Visitor
take_data v uuid h bytes =
    if ltb 0 (length bytes) then record v { reader = writing uuid h bytes } else v

-- The body of `case DATA_EOF`
unfoldable pub take_eof : Visitor → ByteVector → ℕ → Visitor
take_eof v uuid h =
    let s = v.objects h in
    let both = s.half_close_send in
    let w =
      put h
        (record s {
          half_close_recv = true;
          client_shut = true;
          closed = if both then true else s.closed;
        })
        v in
    if both then record w { sessions = erase uuid w.sessions } else w

-- The `switch`, for a session that has been found.
unfoldable pub dispatch : Visitor → Frame → ByteVector → Option ℕ → Visitor
dispatch v f uuid none = v
dispatch v f uuid (some h) =
    if f.method == session_err_method
    then shut_down v uuid h
    else if f.method == data_method
    then take_data v uuid h (drop uuid_bytes f.body)
    else if f.method == data_eof_method
    then take_eof v uuid h
    else if f.method == session_close_method
    then shut_down v uuid h
    else v

-- A frame, in the order of the source's tests.
unfoldable pub take_frame : Visitor → Frame → Visitor
take_frame v f =
    if f.method == eof_method
    then end_reader v
    else if ltb (length f.body) uuid_bytes
    then v
    else dispatch v f (take uuid_bytes f.body) (lookup (take uuid_bytes f.body) v.sessions)

-- The write to the client has ended without an error.
unfoldable pub wrote_data : Visitor → ℕ → ByteVector → Visitor
wrote_data v h bytes =
    let s = v.objects h in
    record (put h (record s { written = s.written ++ bytes }) v) { reader = waiting }

-- The write to the client has failed: SESSION_CLOSE is handed to `aconn_write`.
unfoldable pub report_close : Visitor → ByteVector → ℕ → Visitor
report_close v uuid h =
    let s = v.objects h in
    let frame : Frame = record { method = session_close_method; body = uuid } in
    record (put h (record s { sent = s.sent ++ frame ∷ [] }) v) { reader = reporting uuid h }

-- SESSION_CLOSE has been sent: the reference and the iterator into `sessions` are used again.
unfoldable pub use_entry : Visitor → ByteVector → ℕ → Option ℕ → Visitor
use_entry v uuid h none = record v { reader = undefined }
use_entry v uuid h (some k) =
    if k == h
    then record (shut_down v uuid h) { reader = waiting }
    else record v { reader = undefined }

pub data Event : Type 0 where
  frame : Frame → Event
  server_gone : Event
  write_done : Event
  write_failed : Event
  report_sent : Event
  accepted : ByteVector → Event
  announced : Event
  accept_failed : Event
  task : ℕ → Completion → Event

-- A coroutine's step, with what it does to the entries.
unfoldable pub settle : Visitor → ℕ → Step → Visitor
settle v h (s, gone) = record (put h s v) {
  sessions = if gone then erase s.uuid v.sessions else v.sessions;
}

-- A client, with the result of `generate_uuid`
unfoldable pub accept : Visitor → ByteVector → Visitor
accept v uuid = record (put v.next (new_client uuid) v) {
  sessions = insert uuid v.next v.sessions;
  next = v.next + 1;
  acceptor = announcing v.next;
}

-- What the loop over the frames makes of an event.
unfoldable pub step_reader : Visitor → Reader → Event → Visitor
step_reader v waiting (frame f) = take_frame v f
step_reader v waiting server_gone = end_reader v
step_reader v (writing uuid h bytes) write_done = wrote_data v h bytes
step_reader v (writing uuid h bytes) write_failed = report_close v uuid h
step_reader v (reporting uuid h) report_sent = use_entry v uuid h (lookup uuid v.sessions)
step_reader v _ _ = v

-- What the accept loop makes of an event. The coroutine that it spawns begins with an event of its own.
unfoldable pub step_acceptor : Visitor → Acceptor → Event → Visitor
step_acceptor v accepting (accepted uuid) = accept v uuid
step_acceptor v accepting accept_failed = record (clear v) { acceptor = stopped }
step_acceptor v (announcing h) announced =
    record (put h (spawn (v.objects h) (v.objects h).task) v) { acceptor = accepting }
step_acceptor v _ _ = v

-- Each event is for one of the coroutines. One that is not awaited does not come.
unfoldable pub step : Visitor → Event → Visitor
step v (task h e) = settle v h (task_step (v.objects h) e)
step v (accepted uuid) = step_acceptor v v.acceptor (accepted uuid)
step v announced = step_acceptor v v.acceptor announced
step v accept_failed = step_acceptor v v.acceptor accept_failed
step v e = step_reader v v.reader e

unfoldable pub run : Visitor → List Event → Visitor
run v [] = v
run v (e ∷ es) = run (step v e) es

-- Before the first client.
unfoldable pub new_visitor : Visitor
unfolding new_client
new_visitor = record {
  sessions = [];
  objects = λ h. record (new_client []) { sent = []; task = Client.Task.finished };
  next = 0;
  reader = waiting;
  acceptor = accepting;
}
