-- ===== src/Relay/Provider/Ordering.antt =====
-- The order in which the bytes of a session reach its remote: what comes before the connection stands
-- is kept in `arrival_buffer` and written by the session's coroutine, the rest by the loop.
use msg.Prelude.{
  ℕ, ◌≡◌, refl, sym, ap, ◌∙◌, subst, true, false, some, List, [], ◌∷◌, ◌++◌, map, flatten,
  append-nil, append_assoc, length, if◌then◌else◌,
}
use msg.Bytes.{ByteVector}
use msg.Bytes.Table.{lookup, erase, lookup-insert_self}
use msg.Relay.Frame.{uuid_bytes, forward_session_method}
use msg.Relay.Provider.Task.{
  Task, SessionState, new_session, connected, frame_sent, complete, report, task_step,
}
use msg.Relay.Talk.{ok_frame, data_frame}
use msg.Relay.Provider.Arriving.{take_frame_data}
use msg.Relay.Provider.{
  Provider, waiting, writing, Event, frame, write_done, task, forward_session, take_data,
  take_frame, run_task, wrote_data, step_loop, step, run,
}
use msg.Relay.Provider.Draining.{update_here, step_task, object_after, drains, drain_written}

run-append : (es fs : List Event) (p : Provider) → run p (es ++ fs) ≡ run (run p es) fs
unfolding run
run-append [] fs p = refl
run-append (e ∷ es) fs p = run-append es fs (step p e)

-- The loop awaits a frame, and the session of `uuid` is in this state.
record Holds (p : Provider) (uuid : ByteVector) (h : ℕ) (s : SessionState) : Type 0 where
  pub idle : p.loop ≡ waiting
  pub found : lookup uuid p.sessions ≡ some h
  pub object : p.objects h ≡ s

-- A session after FORWARD_SESSION and these DATA frames.
abbrev buffering : ByteVector → List ByteVector → SessionState
unfolding new_session
buffering uuid buffers = record (new_session uuid) { arrival_buffer = buffers }

forwarded :
    (p : Provider) (uuid : ByteVector)
    → p.loop ≡ waiting
    → Holds
        (step p (frame (record { method = forward_session_method; body = uuid })))
        uuid
        p.next
        (buffering uuid [])
unfolding step step_loop take_frame forward_session new_session
forwarded p uuid idle =
    subst
      (λ l.
        Holds (step_loop p l (frame (record { method = forward_session_method; body = uuid }))) uuid
          p.next (buffering uuid []))
      (sym idle)
      (record {
        idle = idle;
        found = lookup-insert_self uuid p.next p.sessions;
        object = update_here p.objects p.next (new_session uuid);
      })

abbrev pub arrivals : ByteVector → List ByteVector → List Event
arrivals uuid chunks = map (λ c. frame (data_frame uuid c)) chunks

-- A frame that is awaited.
step_frame :
    (p : Provider) (uuid bytes : ByteVector) (h : ℕ) (s : SessionState)
    → length uuid ≡ uuid_bytes
    → Holds p uuid h s
    → step p (frame (data_frame uuid bytes)) ≡ take_data p bytes (some h)
unfolding step step_loop
step_frame p uuid bytes h s size k =
    ap (λ l. step_loop p l (frame (data_frame uuid bytes))) k.idle
    ∙ take_frame_data p uuid bytes size
    ∙ ap (take_data p bytes) k.found

buffered :
    (p : Provider) (uuid bytes : ByteVector) (h : ℕ) (buffers : List ByteVector)
    → length uuid ≡ uuid_bytes
    → Holds p uuid h (buffering uuid buffers)
    → Holds (step p (frame (data_frame uuid bytes))) uuid h (buffering uuid (buffers ++ bytes ∷ []))
unfolding take_data new_session
buffered p uuid bytes h buffers size k =
    subst (λ q. Holds q uuid h (buffering uuid (buffers ++ bytes ∷ [])))
      (sym (step_frame p uuid bytes h (buffering uuid buffers) size k))
      (rw k.object (record {
        idle = k.idle;
        found = k.found;
        object = update_here p.objects h (buffering uuid (buffers ++ bytes ∷ []));
      }))

all_buffered :
    (chunks : List ByteVector) (p : Provider) (uuid : ByteVector) (h : ℕ)
    (buffers : List ByteVector)
    → length uuid ≡ uuid_bytes
    → Holds p uuid h (buffering uuid buffers)
    → Holds (run p (arrivals uuid chunks)) uuid h (buffering uuid (buffers ++ chunks))
unfolding run
all_buffered [] p uuid h buffers size k =
    subst (λ bs. Holds p uuid h (buffering uuid bs)) (sym (append-nil buffers)) k
all_buffered (c ∷ chunks) p uuid h buffers size k =
    subst (λ bs. Holds (run p (arrivals uuid (c ∷ chunks))) uuid h (buffering uuid bs))
      (append_assoc buffers (c ∷ []) chunks)
      (all_buffered chunks _ uuid h (buffers ++ c ∷ []) size (buffered p uuid c h buffers size k))

-- The session when its connection stands and SESSION_OK is being sent.
abbrev greeting : ByteVector → List ByteVector → ByteVector → SessionState
unfolding new_session
greeting uuid buffers bytes = record (new_session uuid) {
  arrival_buffer = buffers;
  remote_connected = true;
  connecting = false;
  remote_open = true;
  task = Task.reporting_ok;
  sent = ok_frame uuid ∷ [];
  written = bytes;
}

greeting_drained :
    (p : Provider) (uuid : ByteVector) (h : ℕ) (chunks : List ByteVector) (bytes : ByteVector)
    → p.objects h ≡ greeting uuid chunks bytes
    → ((run p (task h frame_sent ∷ drains h chunks)).objects h).written ≡ bytes ++ flatten chunks
unfolding run task_step complete new_session
greeting_drained p uuid h chunks bytes e =
    drain_written chunks _ h (greeting uuid chunks bytes) (object_after p h frame_sent _ e)

connects :
    (p : Provider) (uuid : ByteVector) (h : ℕ) (chunks : List ByteVector)
    → Holds p uuid h (buffering uuid chunks)
    → Holds (step p (task h connected)) uuid h (greeting uuid chunks [])
unfolding task_step complete report new_session run_task
connects p uuid h chunks k = record {
  idle = ap (λ q. q.loop) (step_task p h connected) ∙ k.idle;
  found =
      ap (λ q. lookup uuid q.sessions) (step_task p h connected)
      ∙ ap
          (λ t. lookup uuid (
            if (task_step t connected).1
            then erase ((task_step t connected).0).uuid p.sessions
            else p.sessions))
          k.object
      ∙ k.found;
  object = object_after p h connected (buffering uuid chunks) k.object;
}

-- A frame that comes while SESSION_OK is being sent is written at once.
passes_by :
    (p : Provider) (uuid : ByteVector) (h : ℕ) (chunks : List ByteVector) (bytes : ByteVector)
    → length uuid ≡ uuid_bytes
    → Holds p uuid h (greeting uuid chunks [])
    → (run p (frame (data_frame uuid bytes) ∷ write_done ∷ [])).objects h
      ≡ greeting uuid chunks bytes
unfolding run step step_loop take_data wrote_data new_session
passes_by p uuid h chunks bytes size k =
    ap (λ q. (step q write_done).objects h)
      (step_frame p uuid bytes h (greeting uuid chunks []) size k ∙ taken)
    ∙ update_here p.objects h (record (p.objects h) { written = (p.objects h).written ++ bytes })
    ∙ ap (λ (s : SessionState). record s { written = s.written ++ bytes }) k.object
  where
    taken : take_data p bytes (some h) ≡ record p { loop = writing h bytes }
    taken = rw k.object refl

-- DATA that comes before the connection stands reaches the remote in the order in which it came.
pub early_data_in_order :
    (p : Provider) (uuid : ByteVector) (chunks : List ByteVector)
    → p.loop ≡ waiting
    → length uuid ≡ uuid_bytes
    → let h = p.next in
      let forward = frame (record { method = forward_session_method; body = uuid }) in
      ((run p (
          forward ∷ arrivals uuid chunks
          ++ (task h connected ∷ task h frame_sent ∷ drains h chunks))).objects
        h).written
      ≡ flatten chunks
unfolding run
early_data_in_order p uuid chunks idle size =
    let h = p.next in
    let forward = frame (record { method = forward_session_method; body = uuid }) in
    let after = all_buffered chunks _ uuid h [] size (forwarded p uuid idle) in
    let stands = connects _ uuid h chunks after in
    ap (λ q. (q.objects h).written) (run-append (arrivals uuid chunks) _ (step p forward))
    ∙ greeting_drained _ uuid h chunks [] stands.object

-- DATA that comes when the connection stands but SESSION_OK is still being sent is written before the
-- DATA that came earlier, when its write ends before SESSION_OK has been sent.
pub late_data_overtakes :
    (p : Provider) (uuid : ByteVector) (chunks : List ByteVector) (late : ByteVector)
    → p.loop ≡ waiting
    → length uuid ≡ uuid_bytes
    → let h = p.next in
      let forward = frame (record { method = forward_session_method; body = uuid }) in
      let arrives = frame (data_frame uuid late) in
      ((run p (
          forward ∷ arrivals uuid chunks
          ++ (task h connected
              ∷ arrives
              ∷ write_done
              ∷ task h frame_sent
              ∷ drains h chunks))).objects
        h).written
      ≡ late ++ flatten chunks
unfolding run
late_data_overtakes p uuid chunks late idle size =
    let h = p.next in
    let forward = frame (record { method = forward_session_method; body = uuid }) in
    let after = all_buffered chunks _ uuid h [] size (forwarded p uuid idle) in
    let stands = connects _ uuid h chunks after in
    ap (λ q. (q.objects h).written) (run-append (arrivals uuid chunks) _ (step p forward))
    ∙ greeting_drained _ uuid h chunks late (passes_by _ uuid h chunks late size stands)
