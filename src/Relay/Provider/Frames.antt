-- ===== src/Relay/Provider/Frames.antt =====
-- What holds of every session of the provider, whatever the frames and the order of the events.
use msg.Prelude.{
  ℕ, refl, Bool, true, false, Option, none, some, List, [], ◌∷◌, ◌++◌, drop, take, length, ltb,
  ◌==◌, if◌then◌else◌,
}
use msg.Bytes.{ByteVector}
use msg.Bytes.Table.{lookup, erase}
use msg.Relay.Frame.{
  Frame, uuid_bytes, forward_session_method, data_method, data_eof_method, session_close_method,
  eof_method,
}
use msg.Relay.Provider.Task.{SessionState, new_session}
use msg.Relay.Provider.Sending.{Told, IsOrderly, Sends-IsOrderly, task_step-Told}
use msg.Relay.Provider.{
  Provider, Loop, waiting, writing, ended, Event, frame, server_gone, write_done, write_threw, task,
  update, put, close_remotes, end_all, forward_session, take_data, take_eof, take_close, take_frame,
  run_task, wrote_data, step_loop, step, run, new_provider,
}

abbrev pub AllTold : Provider → Type 0
AllTold p = (h : ℕ) → Told (p.objects h)

update-Told :
    (objects : ℕ → SessionState) (h : ℕ) (s : SessionState)
    → ((k : ℕ) → Told (objects k))
    → Told s
    → (k : ℕ) → Told (update objects h s k)
update-Told objects h s all new k = by_test (k == h)
  where
    by_test : (b : Bool) → Told (if b then s else objects k)
    by_test true = new
    by_test false = all k

close_remotes-Told :
    (entries : List (ByteVector × ℕ)) (objects : ℕ → SessionState)
    → ((k : ℕ) → Told (objects k))
    → (k : ℕ) → Told (close_remotes entries objects k)
unfolding close_remotes
close_remotes-Told [] objects all = all
close_remotes-Told ((uuid, h) ∷ entries) objects all =
    close_remotes-Told entries _
      (update-Told objects h (record (objects h) { remote_open = false }) all (all h))

end_all_told : (p : Provider) → AllTold p → AllTold (end_all p)
unfolding end_all
end_all_told p all = close_remotes-Told p.sessions p.objects all

take_data_told :
    (p : Provider) (bytes : ByteVector) (found : Option ℕ)
    → AllTold p
    → AllTold (take_data p bytes found)
unfolding take_data
take_data_told p bytes none all = all
take_data_told p bytes (some h) all =
    by_flags (p.objects h).closed (p.objects h).remote_connected (p.objects h).connecting
  where
    kept :
        Told (record (p.objects h) { arrival_buffer = (p.objects h).arrival_buffer ++ bytes ∷ [] })
    kept = all h

    by_flags :
        (closed connected connecting : Bool)
        → AllTold (
            if closed
            then p
            else if connected
            then record p { loop = writing h bytes }
            else if connecting
            then put h
                (record (p.objects h) {
                  arrival_buffer = (p.objects h).arrival_buffer ++ bytes ∷ [];
                })
                p
            else p)
    by_flags true _ _ = all
    by_flags false true _ = all
    by_flags false false true = update-Told p.objects h _ all kept
    by_flags false false false = all

take_eof_told :
    (p : Provider) (uuid : ByteVector) (found : Option ℕ)
    → AllTold p
    → AllTold (take_eof p uuid found)
unfolding take_eof
take_eof_told p uuid none all = all
take_eof_told p uuid (some h) all = by_flag (p.objects h).half_close_send
  where
    shut : SessionState → Bool → SessionState
    shut s both = record s {
      half_close_recv = true;
      remote_shut = if s.remote_connected then true else s.remote_shut;
      closed = if both then true else s.closed;
    }

    kept : (both : Bool) → AllTold (put h (shut (p.objects h) both) p)
    kept both = update-Told p.objects h _ all (all h)

    by_flag :
        (both : Bool)
        → AllTold (
            let q = put h (shut (p.objects h) both) p in
            if both then record q { sessions = erase uuid q.sessions } else q)
    by_flag true = kept true
    by_flag false = kept false

take_close_told :
    (p : Provider) (uuid : ByteVector) (found : Option ℕ)
    → AllTold p
    → AllTold (take_close p uuid found)
unfolding take_close
take_close_told p uuid none all = all
take_close_told p uuid (some h) all = update-Told p.objects h _ all (all h)

forward_told : (p : Provider) (uuid : ByteVector) → AllTold p → AllTold (forward_session p uuid)
unfolding forward_session new_session
forward_told p uuid all = update-Told p.objects p.next _ all (refl, refl)

take_frame_told : (p : Provider) (f : Frame) → AllTold p → AllTold (take_frame p f)
unfolding take_frame
take_frame_told p f all =
    by_method (f.method == eof_method) (f.method == forward_session_method)
      (f.method == data_method) (ltb (length f.body) uuid_bytes) (f.method == data_eof_method)
      (f.method == session_close_method)
  where
    by_method :
        (is_eof is_forward is_data short is_data_eof is_close : Bool)
        → AllTold (
            if is_eof
            then end_all p
            else if is_forward
            then forward_session p f.body
            else if is_data
            then if short
              then p
              else take_data p (drop uuid_bytes f.body) (lookup (take uuid_bytes f.body) p.sessions)
            else if is_data_eof
            then take_eof p f.body (lookup f.body p.sessions)
            else if is_close
            then take_close p f.body (lookup f.body p.sessions)
            else p)
    by_method true _ _ _ _ _ = end_all_told p all
    by_method false true _ _ _ _ = forward_told p f.body all
    by_method false false true true _ _ = all
    by_method false false true false _ _ = take_data_told p _ _ all
    by_method false false false _ true _ = take_eof_told p f.body _ all
    by_method false false false _ false true = take_close_told p f.body _ all
    by_method false false false _ false false = all

step_told : (p : Provider) (l : Loop) (e : Event) → AllTold p → AllTold (step_loop p l e)
unfolding step_loop run_task wrote_data
step_told p waiting (task h e) all =
    update-Told p.objects h _ all (task_step-Told (p.objects h) e (all h))
step_told p (writing k bytes) (task h e) all =
    update-Told p.objects h _ all (task_step-Told (p.objects h) e (all h))
step_told p ended (task h e) all =
    update-Told p.objects h _ all (task_step-Told (p.objects h) e (all h))
step_told p waiting (frame f) all = take_frame_told p f all
step_told p waiting server_gone all = end_all_told p all
step_told p (writing h bytes) write_done all = update-Told p.objects h _ all (all h)
step_told p (writing h bytes) write_threw all = end_all_told p all
step_told p waiting write_done all = all
step_told p waiting write_threw all = all
step_told p (writing h bytes) (frame f) all = all
step_told p (writing h bytes) server_gone all = all
step_told p ended (frame f) all = all
step_told p ended server_gone all = all
step_told p ended write_done all = all
step_told p ended write_threw all = all

run_told : (es : List Event) (p : Provider) → AllTold p → AllTold (run p es)
unfolding run step
run_told [] p all = all
run_told (e ∷ es) p all = run_told es (step p e) (step_told p p.loop e all)

-- Whatever frames come and however the sessions' coroutines interleave, what the coroutine of a
-- session has sent to the server is nothing, SESSION_ERR, or SESSION_OK, then the bytes read from
-- the remote in order in DATA frames, and then at most one of DATA_EOF and SESSION_CLOSE.
pub sessions_talk_in_order : (es : List Event) (h : ℕ) → IsOrderly ((run new_provider es).objects h)
unfolding new_session
sessions_talk_in_order es h =
    let p = run new_provider es in
    Sends-IsOrderly (p.objects h) (p.objects h).task
      (run_told es new_provider (λ k. (refl, refl)) h)
