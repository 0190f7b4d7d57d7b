-- ===== src/Relay/Visitor/Entries.antt =====
-- Every operation of the visitor keeps the entries of `sessions` well.
use msg.Prelude.{
  ℕ, ◌+◌, ◌<◌, ◌≡◌, refl, sym, ap, subst, ◌∙◌, ◌⊎◌, inl, inr, Bool, true, false, ◌||◌, Option, none,
  some, some_inj, List, [], ◌∷◌, drop, take, length, ltb, ◌==◌, ==_iff, Bool-cases, if◌then◌else◌,
  arith,
}
use msg.Bytes.{ByteVector}
use msg.Bytes.Equal.{same, same→eq}
use msg.Bytes.Table.{lookup, erase, insert, lookup-insert_self, lookup-insert_other}
use msg.Relay.Frame.{
  Frame, uuid_bytes, session_err_method, data_method, data_eof_method, session_close_method,
  eof_method,
}
use msg.Relay.Visitor.Client.{
  read_on, after_eof, after_close, Task, unstarted, spawned, reading, sending, ClientSession,
  Completion, Step, begun, frame_sent, received_bytes, end_of_file, read_failed, new_client, spawn,
  hand, leave, pump_head, after_read, after_send, complete, task_step,
}
use msg.Relay.Visitor.{
  Visitor, Reader, waiting, writing, reporting, Acceptor, accepting, announcing, Event, frame,
  server_gone, write_done, write_failed, report_sent, accepted, announced, accept_failed, task,
  update, put, close_clients, end_reader, shut_down, take_data, take_eof, dispatch, take_frame,
  wrote_data, report_close, use_entry, settle, accept, step_reader, step_acceptor, step, run,
  new_visitor,
}
use msg.Relay.Visitor.Stored.{
  IsEntry, WellStored, by_handle, put_kept, put_erased, none_stored, update_here,
}

abbrev pub IsWell : Visitor → Type 0
IsWell v = WellStored v.sessions v.objects v.next

accept-IsWell : (v : Visitor) (uuid : ByteVector) → IsWell v → IsWell (accept v uuid)
unfolding accept new_client
accept-IsWell v uuid well j k found = elim (Bool-cases (same uuid j)) [
  | inl agree ↦
      let one : uuid ≡ j = same→eq uuid j agree in
      let new : v.next ≡ k = some_inj (
        sym (lookup-insert_self j v.next v.sessions)
        ∙ ap (λ i. lookup j (insert i v.next v.sessions)) (sym one)
        ∙ found) in
      subst (IsEntry (update v.objects v.next (new_client uuid)) (v.next + 1) j) new
        (rw (update_here v.objects v.next (new_client uuid)) (one, (omega arith, refl)))
  | inr differ ↦
      let entry = well j k (sym (lookup-insert_other j uuid v.next v.sessions differ) ∙ found) in
      by_handle v.objects v.next (new_client uuid) k
        (λ t. (t.uuid ≡ j) × ((k < v.next + 1) × (t.closed ≡ false)))
        (λ e. absurd (omega (arith, entry.1.0, e))) (entry.0, (omega (arith, entry.1.0), entry.1.1))
]

-- A coroutine's step either erases the entry or leaves `closed` as it is.
abbrev Settles : ClientSession → Step → Type 0
Settles s r = (r.0.uuid ≡ s.uuid) × ((r.1 ≡ true) ⊎ ((r.1 ≡ false) × (r.0.closed ≡ s.closed)))

leave-Settles : (s : ClientSession) → Settles s (leave s)
unfolding leave
leave-Settles s = elim (Bool-cases s.closed) [
  | inl e ↦ (refl, inl e)
  | inr e ↦ (refl, inr (e, refl))
]

pump_head-Settles : (s : ClientSession) → Settles s (pump_head s)
unfolding pump_head
pump_head-Settles s = by_flag s.closed
  where
    by_flag : (b : Bool) → Settles s (if b then leave s else (record s { task = reading }, false))
    by_flag true = leave-Settles s
    by_flag false = (refl, inr (refl, refl))

last_eof-Settles :
    (s : ClientSession) → Settles s (leave (record s { closed = s.closed || s.half_close_recv }))
unfolding leave
last_eof-Settles s = (refl, by_flags s.closed s.half_close_recv)
  where
    by_flags : (b c : Bool) → ((b || c) ≡ true) ⊎ (((b || c) ≡ false) × ((b || c) ≡ b))
    by_flags true c = inl refl
    by_flags false true = inl refl
    by_flags false false = inr (refl, refl)

complete-Settles : (s : ClientSession) (t : Task) (e : Completion) → Settles s (complete s t e)
unfolding complete after_read after_send hand leave
complete-Settles s spawned begun = pump_head-Settles s
complete-Settles s reading (received_bytes (b ∷ bs)) = (refl, inr (refl, refl))
complete-Settles s reading (received_bytes []) = (refl, inr (refl, refl))
complete-Settles s reading end_of_file = (refl, inr (refl, refl))
complete-Settles s reading (read_failed []) = (refl, inr (refl, refl))
complete-Settles s reading (read_failed (b ∷ bs)) = (refl, inr (refl, refl))
complete-Settles s (sending read_on) frame_sent = pump_head-Settles s
complete-Settles s (sending after_eof) frame_sent = last_eof-Settles s
complete-Settles s (sending after_close) frame_sent = (refl, inl refl)
complete-Settles s t e = (refl, inr (refl, refl))

settle-IsWell :
    (v : Visitor) (h : ℕ) (r : Step) → IsWell v → Settles (v.objects h) r → IsWell (settle v h r)
unfolding settle
settle-IsWell v h (s, true) well (u, outcome) =
    put_erased v.sessions v.objects v.next h s s.uuid well (sym u)
settle-IsWell v h (s, false) well (u, inl e) = absurd (cc)
settle-IsWell v h (s, false) well (u, inr e) = put_kept v.sessions v.objects v.next h s well u e.1

shut_down-IsWell :
    (v : Visitor) (uuid : ByteVector) (h : ℕ)
    → IsWell v
    → lookup uuid v.sessions ≡ some h
    → IsWell (shut_down v uuid h)
unfolding shut_down
shut_down-IsWell v uuid h well found =
    put_erased v.sessions v.objects v.next h _ uuid well (well uuid h found).0

take_eof-IsWell :
    (v : Visitor) (uuid : ByteVector) (h : ℕ)
    → IsWell v
    → lookup uuid v.sessions ≡ some h
    → IsWell (take_eof v uuid h)
unfolding take_eof
take_eof-IsWell v uuid h well found = by_flag (v.objects h).half_close_send
  where
    shut : Bool → ClientSession
    shut both = record (v.objects h) {
      half_close_recv = true;
      client_shut = true;
      closed = if both then true else (v.objects h).closed;
    }

    by_flag :
        (both : Bool)
        → IsWell (
            let w = put h (shut both) v in
            if both then record w { sessions = erase uuid w.sessions } else w)
    by_flag true = put_erased v.sessions v.objects v.next h _ uuid well (well uuid h found).0
    by_flag false = put_kept v.sessions v.objects v.next h _ well refl refl

dispatch-IsWell :
    (v : Visitor) (f : Frame) (uuid : ByteVector) (found : Option ℕ)
    → IsWell v
    → lookup uuid v.sessions ≡ found
    → IsWell (dispatch v f uuid found)
unfolding dispatch take_data
dispatch-IsWell v f uuid none well e = well
dispatch-IsWell v f uuid (some h) well e =
    by_method (f.method == session_err_method) (f.method == data_method)
      (ltb 0 (length (drop uuid_bytes f.body))) (f.method == data_eof_method)
      (f.method == session_close_method)
  where
    by_method :
        (is_err is_data some_data is_data_eof is_close : Bool)
        → IsWell (
            if is_err
            then shut_down v uuid h
            else if is_data
            then if some_data
              then record v { reader = writing uuid h (drop uuid_bytes f.body) }
              else v
            else if is_data_eof
            then take_eof v uuid h
            else if is_close
            then shut_down v uuid h
            else v)
    by_method true _ _ _ _ = shut_down-IsWell v uuid h well e
    by_method false true true _ _ = well
    by_method false true false _ _ = well
    by_method false false _ true _ = take_eof-IsWell v uuid h well e
    by_method false false _ false true = shut_down-IsWell v uuid h well e
    by_method false false _ false false = well

take_frame-IsWell : (v : Visitor) (f : Frame) → IsWell v → IsWell (take_frame v f)
unfolding take_frame end_reader
take_frame-IsWell v f well = by_tests (f.method == eof_method) (ltb (length f.body) uuid_bytes)
  where
    by_tests :
        (is_eof short : Bool)
        → IsWell (
            if is_eof
            then end_reader v
            else if short
            then v
            else dispatch v f (take uuid_bytes f.body) (lookup (take uuid_bytes f.body) v.sessions))
    by_tests true _ = none_stored (close_clients v.sessions v.objects) v.next
    by_tests false true = well
    by_tests false false = dispatch-IsWell v f (take uuid_bytes f.body) _ well refl

use_entry-IsWell :
    (v : Visitor) (uuid : ByteVector) (h : ℕ) (found : Option ℕ)
    → IsWell v
    → lookup uuid v.sessions ≡ found
    → IsWell (use_entry v uuid h found)
unfolding use_entry
use_entry-IsWell v uuid h none well e = well
use_entry-IsWell v uuid h (some k) well e = elim (Bool-cases (k == h)) [
  | inl agree ↦ rw agree (shut_down-IsWell v uuid h well (e ∙ ap some ((==_iff k h).0 agree)))
  | inr differ ↦ rw differ well
]

step_reader-IsWell : (v : Visitor) (r : Reader) (e : Event) → IsWell v → IsWell (step_reader v r e)
unfolding step_reader wrote_data report_close end_reader
step_reader-IsWell v waiting (frame f) well = take_frame-IsWell v f well
step_reader-IsWell v waiting server_gone well =
    none_stored (close_clients v.sessions v.objects) v.next
step_reader-IsWell v (writing uuid h bytes) write_done well =
    put_kept v.sessions v.objects v.next h _ well refl refl
step_reader-IsWell v (writing uuid h bytes) write_failed well =
    put_kept v.sessions v.objects v.next h _ well refl refl
step_reader-IsWell v (reporting uuid h) report_sent well = use_entry-IsWell v uuid h _ well refl
step_reader-IsWell v r e well = well

spawn_same :
    (s : ClientSession) (t : Task) → ((spawn s t).uuid ≡ s.uuid) × ((spawn s t).closed ≡ s.closed)
unfolding spawn
spawn_same s unstarted = (refl, refl)
spawn_same s t = (refl, refl)

step_acceptor-IsWell :
    (v : Visitor) (a : Acceptor) (e : Event) → IsWell v → IsWell (step_acceptor v a e)
unfolding step_acceptor
step_acceptor-IsWell v accepting (accepted uuid) well = accept-IsWell v uuid well
step_acceptor-IsWell v accepting accept_failed well =
    none_stored (close_clients v.sessions v.objects) v.next
step_acceptor-IsWell v (announcing h) announced well =
    let same = spawn_same (v.objects h) (v.objects h).task in
    put_kept v.sessions v.objects v.next h _ well same.0 same.1
step_acceptor-IsWell v a e well = well

step-IsWell : (v : Visitor) (e : Event) → IsWell v → IsWell (step v e)
unfolding step task_step
step-IsWell v (task h e) well =
    settle-IsWell v h (complete (v.objects h) (v.objects h).task e) well
      (complete-Settles (v.objects h) (v.objects h).task e)
step-IsWell v (accepted uuid) well = step_acceptor-IsWell v v.acceptor _ well
step-IsWell v announced well = step_acceptor-IsWell v v.acceptor _ well
step-IsWell v accept_failed well = step_acceptor-IsWell v v.acceptor _ well
step-IsWell v (frame f) well = step_reader-IsWell v v.reader _ well
step-IsWell v server_gone well = step_reader-IsWell v v.reader _ well
step-IsWell v write_done well = step_reader-IsWell v v.reader _ well
step-IsWell v write_failed well = step_reader-IsWell v v.reader _ well
step-IsWell v report_sent well = step_reader-IsWell v v.reader _ well

run-IsWell : (es : List Event) (v : Visitor) → IsWell v → IsWell (run v es)
unfolding run
run-IsWell [] v well = well
run-IsWell (e ∷ es) v well = run-IsWell es (step v e) (step-IsWell v e well)

-- Whatever happens, an entry of `sessions` leads to an object that has been made, that has the
-- identifier of the entry and that is not closed.
pub entries_are_open :
    (es : List Event) (uuid : ByteVector) (h : ℕ)
    → lookup uuid (run new_visitor es).sessions ≡ some h
    → IsEntry (run new_visitor es).objects (run new_visitor es).next uuid h
unfolding new_visitor
entries_are_open es = run-IsWell es new_visitor (none_stored new_visitor.objects 0)
