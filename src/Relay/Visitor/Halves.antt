-- ===== src/Relay/Visitor/Halves.antt =====
-- DATA for a client, and the two halves of a session that end one after the other.
use msg.Prelude.{
  ℕ, ◌≡◌, refl, sym, ap, ap₂, ◌∙◌, true, false, ◌||◌, none, some, [], ◌∷◌, ◌++◌, length,
}
use msg.Bytes.{Byte, ByteVector}
use msg.Bytes.Table.{lookup}
use msg.Relay.Frame.{uuid_bytes}
use msg.Relay.Talk.{data_frame, eof_frame}
use msg.Relay.Visitor.Client.{
  after_eof, Task, reading, sending, finished, ClientSession, Step, frame_sent, end_of_file, hand,
  leave, after_read, after_send, complete, task_step,
}
use msg.Relay.Visitor.Stored.{update_here}
use msg.Relay.Visitor.Serving.{Serves, task-Serves, task-Gone, step_data, eof-Serves, eof-Gone}
use msg.Relay.Visitor.{
  Visitor, waiting, frame, write_done, task, put, wrote_data, step_reader, step, run,
}

-- DATA that holds something, for a client that has an entry: when it has been written, its bytes stand
-- behind what was written to that client, and nothing else of the visitor has changed.
pub data_reaches_its_client :
    (v : Visitor) (uuid : ByteVector) (b : Byte) (bs : ByteVector) (h : ℕ)
    → v.reader ≡ waiting
    → lookup uuid v.sessions ≡ some h
    → length uuid ≡ uuid_bytes
    → run v (frame (data_frame uuid (b ∷ bs)) ∷ write_done ∷ [])
      ≡ put h (record (v.objects h) { written = (v.objects h).written ++ b ∷ bs }) v
unfolding run step step_reader wrote_data
data_reaches_its_client v uuid b bs h idle found size =
    ap (λ w. step w write_done)
      (step_data v uuid b bs h (v.objects h) (record { at = idle; found = found; object = refl })
        size)
    ∙ ap {B = Visitor}
        (λ r.
          record (put h (record (v.objects h) { written = (v.objects h).written ++ b ∷ bs }) v) {
            reader = r;
          })
        (sym idle)

-- The client has sent all it has, and DATA_EOF is being sent.
abbrev ended_client : ClientSession → Task → ClientSession
unfolding after_read hand
ended_client s t = record (after_read s end_of_file) { task = t }

end_read :
    (s : ClientSession)
    → s.task ≡ reading
    → task_step s end_of_file ≡ (ended_client s (sending after_eof), false)
unfolding task_step complete after_read hand
end_read s e = ap (λ t. complete s t end_of_file) e

-- The server has not ended: the coroutine leaves the entry.
keep_entry :
    (s : ClientSession)
    → s.half_close_recv ≡ false
    → s.closed ≡ false
    → task_step (ended_client s (sending after_eof)) frame_sent
      ≡ (record (ended_client s finished) { closed = false }, false)
unfolding task_step complete after_send leave after_read hand
keep_entry s more not_closed =
    ap {B = Step} (λ c. (record (ended_client s finished) { closed = c }, c))
      (ap₂ (λ a b. a || b) not_closed more)

drop_entry :
    (s : ClientSession)
    → s.half_close_recv ≡ true
    → s.closed ≡ false
    → task_step (ended_client s (sending after_eof)) frame_sent
      ≡ (record (ended_client s finished) { closed = true }, true)
unfolding task_step complete after_send leave after_read hand
drop_entry s over not_closed =
    ap {B = Step} (λ c. (record (ended_client s finished) { closed = c }, c))
      (ap₂ (λ a b. a || b) not_closed over)

-- DATA, for a session whose state is known.
still_served :
    (v : Visitor) (uuid : ByteVector) (b : Byte) (bs : ByteVector) (h : ℕ) (s : ClientSession)
    → Serves v waiting uuid h s
    → length uuid ≡ uuid_bytes
    → let w = run v (frame (data_frame uuid (b ∷ bs)) ∷ write_done ∷ []) in
      (lookup uuid w.sessions ≡ some h)
      × (((w.objects h).closed ≡ s.closed) × ((w.objects h).written ≡ s.written ++ b ∷ bs))
still_served v uuid b bs h s k size =
    let reached = data_reaches_its_client v uuid b bs h k.at k.found size in
    let now = ap (λ w. w.objects h) reached ∙ update_here v.objects h _ in
    (
      ap (λ w. lookup uuid w.sessions) reached ∙ k.found,
      (
        ap (λ t. t.closed) now ∙ ap (λ t. t.closed) k.object,
        ap (λ t. t.written) now ∙ ap (λ t. t.written ++ b ∷ bs) k.object,
      ),
    )

-- The client of `uuid` has sent all it has and the server has not: the session keeps its entry and is
-- not closed, and DATA for it is still written to the client.
pub half_open_goes_on :
    (v : Visitor) (uuid : ByteVector) (b : Byte) (bs : ByteVector) (h : ℕ)
    → v.reader ≡ waiting
    → lookup uuid v.sessions ≡ some h
    → length uuid ≡ uuid_bytes
    → (v.objects h).task ≡ reading
    → (v.objects h).half_close_recv ≡ false
    → (v.objects h).closed ≡ false
    → let w = run v (
        task h end_of_file
        ∷ task h frame_sent
        ∷ frame (data_frame uuid (b ∷ bs))
        ∷ write_done
        ∷ []) in
      (lookup uuid w.sessions ≡ some h)
      × (((w.objects h).closed ≡ false) × ((w.objects h).written ≡ (v.objects h).written ++ b ∷ bs))
unfolding run after_read hand
half_open_goes_on v uuid b bs h idle found size reads more not_closed =
    let s = v.objects h in
    let k =
      task-Serves _ waiting uuid h _ _ frame_sent
        (task-Serves v waiting uuid h s _ end_of_file
          (record { at = idle; found = found; object = refl }) (end_read s reads))
        (keep_entry s more not_closed) in
    still_served (run v (task h end_of_file ∷ task h frame_sent ∷ [])) uuid b bs h _ k size

-- Both halves of the session of `uuid` end, in one order or the other: the session is closed and
-- has no entry.
pub both_halves_clean_up :
    (v : Visitor) (uuid : ByteVector) (h : ℕ)
    → v.reader ≡ waiting
    → lookup uuid v.sessions ≡ some h
    → length uuid ≡ uuid_bytes
    → (v.objects h).uuid ≡ uuid
    → (v.objects h).task ≡ reading
    → (v.objects h).half_close_recv ≡ false
    → (v.objects h).half_close_send ≡ false
    → (v.objects h).closed ≡ false
    → let client_first =
        run v (task h end_of_file ∷ task h frame_sent ∷ frame (eof_frame uuid) ∷ []) in
      let server_first =
        run v (frame (eof_frame uuid) ∷ task h end_of_file ∷ task h frame_sent ∷ []) in
      ((lookup uuid client_first.sessions ≡ none) × ((client_first.objects h).closed ≡ true))
      × ((lookup uuid server_first.sessions ≡ none) × ((server_first.objects h).closed ≡ true))
unfolding run after_read hand
both_halves_clean_up v uuid h idle found size u reads more sends not_closed =
    let s = v.objects h in
    let k : Serves v waiting uuid h s = record { at = idle; found = found; object = refl } in
    let client_ended =
      task-Serves _ waiting uuid h _ _ frame_sent
        (task-Serves v waiting uuid h s _ end_of_file k (end_read s reads))
        (keep_entry s more not_closed) in
    let client_first = eof-Gone _ uuid h _ client_ended size refl in
    let server_ended = eof-Serves v uuid h s k size sends in
    let t : ClientSession = record s { half_close_recv = true; client_shut = true } in
    let server_first =
      task-Gone _ waiting uuid h _ _ frame_sent
        (task-Serves _ waiting uuid h t _ end_of_file server_ended (end_read t reads))
        (drop_entry t refl not_closed) u in
    (
      (client_first.missing, ap (λ x. x.closed) client_first.object),
      (server_first.missing, ap (λ x. x.closed) server_first.object),
    )
