-- ===== src/Relay/Visitor/Hazards.antt =====
-- What the visitor does when its coroutines meet in ways that they do not check.
use msg.Prelude.{
  ℕ, ◌≡◌, refl, ap, ◌∙◌, Bool, true, false, some, List, [], ◌∷◌, ◌++◌, length, map, if◌then◌else◌,
}
use msg.Bytes.{Byte, ByteVector}
use msg.Bytes.Table.{lookup, erase, lookup-insert_self}
use msg.Relay.Frame.{Frame, uuid_bytes}
use msg.Relay.Talk.{data_frame}
use msg.Relay.Visitor.Client.{
  spawned, reading, ClientSession, Completion, begun, new_client, pump_head, complete, task_step,
  spawn,
}
use msg.Relay.Visitor.Stored.{update_here}
use msg.Relay.Visitor.Serving.{Serves, step_data}
use msg.Relay.Visitor.{
  Visitor, waiting, writing, ended, undefined, Acceptor, accepting, announcing, Event, frame,
  server_gone, write_failed, report_sent, accepted, announced, accept_failed, task, end_reader,
  use_entry, settle, accept, report_close, step_reader, step_acceptor, step, run,
}

-- The steps of the clients' coroutines, which may come in between.
abbrev pub client_events : List (ℕ × Completion) → List Event
client_events = map (λ x. task x.0 x.1)

-- They bring no entry back, and the loop over the frames goes on waiting for its write.
write_fails :
    (ts : List (ℕ × Completion)) (v : Visitor) (uuid bytes : ByteVector) (h : ℕ)
    → v.reader ≡ writing uuid h bytes
    → v.sessions ≡ []
    → (run v (client_events ts ++ write_failed ∷ report_sent ∷ [])).reader ≡ undefined
unfolding run step step_reader report_close use_entry lookup settle erase
write_fails [] v uuid bytes h at none_left = rw (at, none_left) refl
write_fails ((k, e) ∷ ts) v uuid bytes h at none_left =
    let stepped = task_step (v.objects k) e in
    write_fails ts (settle v k stepped) uuid bytes h at (by_end stepped.1 stepped.0)
  where
    by_end :
        (gone : Bool) (s : ClientSession)
        → (if gone then erase s.uuid v.sessions else v.sessions) ≡ []
    by_end true s = ap (erase s.uuid) none_left
    by_end false s = none_left

-- The accept loop fails beside a write to a client: every client is closed, and there are no entries.
accept_fails :
    (v : Visitor) (ts : List (ℕ × Completion)) (uuid bytes : ByteVector) (h : ℕ)
    → v.acceptor ≡ accepting
    → (run
        (record v { reader = writing uuid h bytes })
        (accept_failed ∷ client_events ts ++ write_failed ∷ report_sent ∷ [])).reader
      ≡ undefined
unfolding run step step_acceptor
accept_fails v ts uuid bytes h accepts = rw accepts (write_fails ts _ uuid bytes h refl refl)

-- While DATA is being written to a client, the accept loop fails: it closes every client and clears
-- `sessions`. Whatever the clients' coroutines do then, the write to the closed client fails,
-- SESSION_CLOSE is sent, and the loop over the frames uses the entry that is gone.
pub entry_is_used_when_gone :
    (v : Visitor) (ts : List (ℕ × Completion)) (uuid : ByteVector) (b : Byte) (bs : ByteVector)
    (h : ℕ)
    → v.reader ≡ waiting
    → v.acceptor ≡ accepting
    → lookup uuid v.sessions ≡ some h
    → length uuid ≡ uuid_bytes
    → (run v (
        frame (data_frame uuid (b ∷ bs)) ∷ accept_failed ∷ client_events ts
        ++ write_failed ∷ report_sent ∷ [])).reader
      ≡ undefined
unfolding run
entry_is_used_when_gone v ts uuid b bs h idle accepts found size =
    let k : Serves v waiting uuid h (v.objects h) = record {
      at = idle;
      found = found;
      object = refl;
    } in
    ap (λ w. (run w (accept_failed ∷ client_events ts ++ write_failed ∷ report_sent ∷ [])).reader)
      (step_data v uuid b bs h (v.objects h) k size)
    ∙ accept_fails v ts uuid (b ∷ bs) h accepts

-- Behind its loop, the loop over the frames takes no more.
frames_unread : (fs : List Frame) (v : Visitor) → v.reader ≡ ended → run v (map frame fs) ≡ v
unfolding run step step_reader
frames_unread [] v e = refl
frames_unread (f ∷ fs) v e =
    ap (λ r. run (step_reader v r (frame f)) (map frame fs)) e ∙ frames_unread fs v e

-- A session beside a loop over the frames that has ended.
record Alone (v : Visitor) (acceptor : Acceptor) (uuid : ByteVector) (h : ℕ) (s : ClientSession)
    : Type 0 where
  at : v.reader ≡ ended
  accepts : v.acceptor ≡ acceptor
  found : lookup uuid v.sessions ≡ some h
  object : v.objects h ≡ s

accepted-Alone :
    (v : Visitor) (uuid : ByteVector)
    → v.reader ≡ waiting
    → v.acceptor ≡ accepting
    → Alone
        (step (step v server_gone) (accepted uuid))
        (announcing v.next)
        uuid
        v.next
        (new_client uuid)
unfolding step step_reader step_acceptor accept end_reader
accepted-Alone v uuid idle accepts =
    let alone : Alone (accept (end_reader v) uuid) (announcing v.next) uuid v.next
        (new_client uuid) =
      record {
        at = refl;
        accepts = refl;
        found = lookup-insert_self uuid v.next [];
        object = update_here (end_reader v).objects v.next (new_client uuid);
      } in
    rw (idle, accepts) alone

announced-Alone :
    (v : Visitor) (uuid : ByteVector) (h : ℕ)
    → Alone v (announcing h) uuid h (new_client uuid)
    → Alone (step v announced) accepting uuid h (record (new_client uuid) { task = spawned })
unfolding step step_acceptor spawn new_client
announced-Alone v uuid h k = rw (k.accepts) (record {
  at = k.at;
  accepts = refl;
  found = k.found;
  object =
      update_here v.objects h (spawn (v.objects h) (v.objects h).task)
      ∙ ap (λ s. spawn s s.task) k.object;
})

begun-Alone :
    (v : Visitor) (uuid : ByteVector) (h : ℕ)
    → Alone v accepting uuid h (record (new_client uuid) { task = spawned })
    → Alone (step v (task h begun)) accepting uuid h (record (new_client uuid) { task = reading })
unfolding step settle task_step complete pump_head new_client
begun-Alone v uuid h k = rw (k.object) (record {
  at = k.at;
  accepts = k.accepts;
  found = k.found;
  object = update_here v.objects h (record (new_client uuid) { task = reading });
})

-- The connection to the server has ended, and a client is accepted all the same: it gets an entry, its
-- coroutine reads from it, and whatever the server would send, nothing is written to it and it
-- stays open.
pub accepts_without_server :
    (v : Visitor) (uuid : ByteVector) (fs : List Frame)
    → v.reader ≡ waiting
    → v.acceptor ≡ accepting
    → let h = v.next in
      let w = run v (server_gone ∷ accepted uuid ∷ announced ∷ task h begun ∷ map frame fs) in
      (w.reader ≡ ended)
      × ((w.acceptor ≡ accepting)
          × ((lookup uuid w.sessions ≡ some h)
              × (((w.objects h).client_open ≡ true)
                  × (((w.objects h).task ≡ reading) × ((w.objects h).written ≡ [])))))
unfolding run new_client
accepts_without_server v uuid fs idle accepts =
    let w = step (step (step (step v server_gone) (accepted uuid)) announced) (task v.next begun) in
    let k : Alone w accepting uuid v.next (record (new_client uuid) { task = reading }) =
      begun-Alone _ uuid v.next
        (announced-Alone _ uuid v.next (accepted-Alone v uuid idle accepts)) in
    rw (frames_unread fs w k.at) (
      k.at,
      (
        k.accepts,
        (
          k.found,
          (
            ap (λ s. s.client_open) k.object,
            (ap (λ s. s.task) k.object, ap (λ s. s.written) k.object),
          ),
        ),
      ),
    )
