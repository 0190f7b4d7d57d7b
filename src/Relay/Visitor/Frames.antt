-- ===== src/Relay/Visitor/Frames.antt =====
-- What is sent to the server for each client, whatever the frames and the order of the events.
use msg.Prelude.{
  ℕ, refl, inl, Bool, true, false, Option, none, some, List, [], ◌∷◌, drop, take, length, ltb, ◌==◌,
  if◌then◌else◌,
}
use msg.Bytes.{ByteVector}
use msg.Bytes.Table.{lookup, erase}
use msg.Relay.Frame.{
  Frame, uuid_bytes, session_err_method, data_method, data_eof_method, session_close_method,
  eof_method,
}
use msg.Relay.Talk.{first_word}
use msg.Relay.Visitor.Client.{ClientSession, new_client, spawn, task_step}
use msg.Relay.Visitor.{
  Visitor, Reader, waiting, writing, reporting, undefined, Acceptor, accepting, announcing, Event,
  frame, server_gone, write_done, write_failed, report_sent, accepted, announced, accept_failed,
  task, update, put, close_clients, end_reader, shut_down, take_data, take_eof, dispatch,
  take_frame, wrote_data, report_close, use_entry, settle, accept, step_reader, step_acceptor, step,
  run, new_visitor,
}
use msg.Relay.Visitor.Sending.{
  without_close, Told, IsOrderly, Sends-IsOrderly, complete-Told, spawn-Told, report-Told,
}

abbrev pub AllTold : Visitor → Type 0
AllTold v = (h : ℕ) → Told (v.objects h)

update-Told :
    (objects : ℕ → ClientSession) (h : ℕ) (s : ClientSession)
    → ((k : ℕ) → Told (objects k))
    → Told s
    → (k : ℕ) → Told (update objects h s k)
update-Told objects h s all new k = by_test (k == h)
  where
    by_test : (b : Bool) → Told (if b then s else objects k)
    by_test true = new
    by_test false = all k

close_clients-Told :
    (entries : List (ByteVector × ℕ)) (objects : ℕ → ClientSession)
    → ((k : ℕ) → Told (objects k))
    → (k : ℕ) → Told (close_clients entries objects k)
unfolding close_clients
close_clients-Told [] objects all = all
close_clients-Told ((uuid, h) ∷ entries) objects all =
    close_clients-Told entries _
      (update-Told objects h (record (objects h) { client_open = false }) all (all h))

shut_down_told :
    (v : Visitor) (uuid : ByteVector) (h : ℕ) → AllTold v → AllTold (shut_down v uuid h)
unfolding shut_down
shut_down_told v uuid h all = update-Told v.objects h _ all (all h)

take_eof_told : (v : Visitor) (uuid : ByteVector) (h : ℕ) → AllTold v → AllTold (take_eof v uuid h)
unfolding take_eof
take_eof_told v uuid h all = by_flag (v.objects h).half_close_send
  where
    shut : Bool → ClientSession
    shut both = record (v.objects h) {
      half_close_recv = true;
      client_shut = true;
      closed = if both then true else (v.objects h).closed;
    }

    by_flag :
        (both : Bool)
        → AllTold (
            let w = put h (shut both) v in
            if both then record w { sessions = erase uuid w.sessions } else w)
    by_flag true = update-Told v.objects h _ all (all h)
    by_flag false = update-Told v.objects h _ all (all h)

dispatch_told :
    (v : Visitor) (f : Frame) (uuid : ByteVector) (found : Option ℕ)
    → AllTold v
    → AllTold (dispatch v f uuid found)
unfolding dispatch take_data
dispatch_told v f uuid none all = all
dispatch_told v f uuid (some h) all =
    by_method (f.method == session_err_method) (f.method == data_method)
      (ltb 0 (length (drop uuid_bytes f.body))) (f.method == data_eof_method)
      (f.method == session_close_method)
  where
    by_method :
        (is_err is_data some_data is_data_eof is_close : Bool)
        → AllTold (
            if is_err
            then shut_down v uuid h
            else if is_data
            then if some_data
              then record v { reader = writing uuid h (drop uuid_bytes f.body) }
              else v
            else if is_data_eof
            then take_eof v uuid h
            else if is_close
            then shut_down v uuid h
            else v)
    by_method true _ _ _ _ = shut_down_told v uuid h all
    by_method false true true _ _ = all
    by_method false true false _ _ = all
    by_method false false _ true _ = take_eof_told v uuid h all
    by_method false false _ false true = shut_down_told v uuid h all
    by_method false false _ false false = all

end_reader_told : (v : Visitor) → AllTold v → AllTold (end_reader v)
unfolding end_reader
end_reader_told v all = close_clients-Told v.sessions v.objects all

take_frame_told : (v : Visitor) (f : Frame) → AllTold v → AllTold (take_frame v f)
unfolding take_frame
take_frame_told v f all = by_tests (f.method == eof_method) (ltb (length f.body) uuid_bytes)
  where
    by_tests :
        (is_eof short : Bool)
        → AllTold (
            if is_eof
            then end_reader v
            else if short
            then v
            else dispatch v f (take uuid_bytes f.body) (lookup (take uuid_bytes f.body) v.sessions))
    by_tests true _ = end_reader_told v all
    by_tests false true = all
    by_tests false false = dispatch_told v f _ _ all

use_entry_told :
    (v : Visitor) (uuid : ByteVector) (h : ℕ) (found : Option ℕ)
    → AllTold v
    → AllTold (use_entry v uuid h found)
unfolding use_entry
use_entry_told v uuid h none all = all
use_entry_told v uuid h (some k) all = by_test (k == h)
  where
    by_test :
        (b : Bool)
        → AllTold (
            if b
            then record (shut_down v uuid h) { reader = waiting }
            else record v { reader = undefined })
    by_test true = shut_down_told v uuid h all
    by_test false = all

step_reader_told : (v : Visitor) (r : Reader) (e : Event) → AllTold v → AllTold (step_reader v r e)
unfolding step_reader wrote_data report_close
step_reader_told v waiting (frame f) all = take_frame_told v f all
step_reader_told v waiting server_gone all = end_reader_told v all
step_reader_told v (writing uuid h bytes) write_done all = update-Told v.objects h _ all (all h)
step_reader_told v (writing uuid h bytes) write_failed all =
    update-Told v.objects h _ all (report-Told (v.objects h) uuid (all h))
step_reader_told v (reporting uuid h) report_sent all = use_entry_told v uuid h _ all
step_reader_told v r e all = all

step_acceptor_told :
    (v : Visitor) (a : Acceptor) (e : Event) → AllTold v → AllTold (step_acceptor v a e)
unfolding step_acceptor accept new_client spawn without_close
step_acceptor_told v accepting (accepted uuid) all =
    update-Told v.objects v.next (new_client uuid) all (first_word refl refl)
step_acceptor_told v accepting accept_failed all = close_clients-Told v.sessions v.objects all
step_acceptor_told v (announcing h) announced all =
    update-Told v.objects h _ all (spawn-Told (v.objects h) (v.objects h).task refl (all h))
step_acceptor_told v a e all = all

step_told : (v : Visitor) (e : Event) → AllTold v → AllTold (step v e)
unfolding step settle task_step
step_told v (task h e) all =
    update-Told v.objects h _ all (complete-Told (v.objects h) (v.objects h).task e refl (all h))
step_told v (accepted uuid) all = step_acceptor_told v v.acceptor _ all
step_told v announced all = step_acceptor_told v v.acceptor _ all
step_told v accept_failed all = step_acceptor_told v v.acceptor _ all
step_told v (frame f) all = step_reader_told v v.reader _ all
step_told v server_gone all = step_reader_told v v.reader _ all
step_told v write_done all = step_reader_told v v.reader _ all
step_told v write_failed all = step_reader_told v v.reader _ all
step_told v report_sent all = step_reader_told v v.reader _ all

pub run_told : (es : List Event) (v : Visitor) → AllTold v → AllTold (run v es)
unfolding run
run_told [] v all = all
run_told (e ∷ es) v all = run_told es (step v e) (step_told v e all)

-- Whatever frames come, whichever clients are accepted and however the coroutines interleave, all that
-- has been sent for a client, leaving out SESSION_CLOSE, is nothing, or NEW_SESSION, then the bytes read
-- from that client in order in DATA frames, and then at most one DATA_EOF.
pub clients_talk_in_order : (es : List Event) (h : ℕ) → IsOrderly ((run new_visitor es).objects h)
unfolding new_visitor without_close
clients_talk_in_order es h =
    let v = run new_visitor es in
    Sends-IsOrderly (v.objects h) (v.objects h).task (run_told es new_visitor (λ k. inl refl) h)
