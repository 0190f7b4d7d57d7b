-- ===== src/Relay/Provider/Sending.antt =====
-- What a session's coroutine sends to the server, whatever happens around it.
use msg.Prelude.{
  ◌≡◌, refl, sym, ap, subst, ◌⊎◌, inl, inr, Bool, true, false, List, [], ◌∷◌, ◌++◌, if◌then◌else◌,
}
use msg.Bytes.{ByteVector}
use msg.Relay.Frame.{Frame}
use msg.Relay.Talk.{
  Talk, first_word, next_word, last_word, ok_frame, err_frame, eof_frame, close_frame,
}
use msg.Relay.Provider.Task.{
  read_on, after_eof, after_close, Task, connecting_to, reporting_error, reporting_ok, draining,
  reading, sending, finished, SessionState, Completion, connected, connect_failed, frame_sent,
  wrote, write_failed, received_bytes, end_of_file, read_failed, report, pump_head, drain_next,
  after_read, after_send, complete, task_step, Step,
}

abbrev pub Talks : ByteVector → List Frame → ByteVector → List Frame → Type 0
Talks uuid = Talk (ok_frame uuid) uuid

-- What is sent, by where the coroutine is.
abbrev pub Sends : ByteVector → List Frame → ByteVector → Task → Type 0
Sends uuid sent received connecting_to = (sent ≡ []) × (received ≡ [])
Sends uuid sent received reporting_error = sent ≡ err_frame uuid ∷ []
Sends uuid sent received reporting_ok = Talks uuid sent received []
Sends uuid sent received (draining bs) = Talks uuid sent received []
Sends uuid sent received reading = Talks uuid sent received []
Sends uuid sent received (sending read_on) = Talks uuid sent received []
Sends uuid sent received (sending after_eof) = Talks uuid sent received (eof_frame uuid ∷ [])
Sends uuid sent received (sending after_close) = Talks uuid sent received (close_frame uuid ∷ [])
Sends uuid sent received finished =
    (sent ≡ err_frame uuid ∷ [])
    ⊎ (Talks uuid sent received []
        ⊎ (Talks uuid sent received (eof_frame uuid ∷ [])
            ⊎ Talks uuid sent received (close_frame uuid ∷ [])))

abbrev pub Told : SessionState → Type 0
Told s = Sends s.uuid s.sent s.received s.task

-- SESSION_OK and DATA so far.
abbrev Speaks : SessionState → Type 0
Speaks s = Talks s.uuid s.sent s.received []

pump_head-Told : (s : SessionState) → Speaks s → Told ((pump_head s).0)
unfolding pump_head
pump_head-Told s k = by_flag s.closed
  where
    by_flag :
        (b : Bool)
        → Told (
            (if◌then◌else◌ {A = Step} b
              (record s { task = finished }, true)
              (record s { task = reading }, false)).0)
    by_flag true = inr (inl k)
    by_flag false = k

drain_next-Told : (s : SessionState) (bs : List ByteVector) → Speaks s → Told ((drain_next s bs).0)
unfolding drain_next
drain_next-Told s [] k = pump_head-Told _ k
drain_next-Told s (b ∷ bs) k = k

complete-Told :
    (s : SessionState) (t : Task) (e : Completion)
    → s.task ≡ t
    → Sends s.uuid s.sent s.received t
    → Told ((complete s t e).0)
unfolding complete after_read after_send report
complete-Told s connecting_to connected h (none_sent, none_read) = first_word none_sent none_read
complete-Told s connecting_to connect_failed h (none_sent, none_read) =
    ap (λ fs. fs ++ err_frame s.uuid ∷ []) none_sent
complete-Told s reporting_error frame_sent h k = inl k
complete-Told s reporting_ok frame_sent h k = drain_next-Told s s.arrival_buffer k
complete-Told s (draining (b ∷ bs)) wrote h k = drain_next-Told _ bs k
complete-Told s (draining (b ∷ bs)) write_failed h k = inr (inl k)
complete-Told s (draining []) write_failed h k = inr (inl k)
complete-Told s reading (received_bytes (b ∷ bs)) h k = next_word (b ∷ bs) k
complete-Told s reading (received_bytes []) h k = last_word (eof_frame s.uuid) k
complete-Told s reading end_of_file h k = last_word (eof_frame s.uuid) k
complete-Told s reading (read_failed (b ∷ bs)) h k = last_word (close_frame s.uuid) k
complete-Told s reading (read_failed []) h k = last_word (eof_frame s.uuid) k
complete-Told s (sending read_on) frame_sent h k = pump_head-Told s k
complete-Told s (sending after_eof) frame_sent h k = inr (inr (inl k))
complete-Told s (sending after_close) frame_sent h k = inr (inr (inr k))
complete-Told s t e h k = subst (Sends s.uuid s.sent s.received) (sym h) k

-- What a coroutine has sent to the server so far: nothing; SESSION_ERR; or SESSION_OK, then DATA
-- frames that hold the bytes of the remote in order, and then DATA_EOF, SESSION_CLOSE or nothing.
abbrev pub IsOrderly : SessionState → Type 0
IsOrderly s =
    (s.sent ≡ [])
    ⊎ ((s.sent ≡ err_frame s.uuid ∷ [])
        ⊎ (Speaks s
            ⊎ (Talks s.uuid s.sent s.received (eof_frame s.uuid ∷ [])
                ⊎ Talks s.uuid s.sent s.received (close_frame s.uuid ∷ []))))

pub Sends-IsOrderly : (s : SessionState) (t : Task) → Sends s.uuid s.sent s.received t → IsOrderly s
Sends-IsOrderly s connecting_to k = inl k.0
Sends-IsOrderly s reporting_error k = inr (inl k)
Sends-IsOrderly s reporting_ok k = inr (inr (inl k))
Sends-IsOrderly s (draining bs) k = inr (inr (inl k))
Sends-IsOrderly s reading k = inr (inr (inl k))
Sends-IsOrderly s (sending read_on) k = inr (inr (inl k))
Sends-IsOrderly s (sending after_eof) k = inr (inr (inr (inl k)))
Sends-IsOrderly s (sending after_close) k = inr (inr (inr (inr k)))
Sends-IsOrderly s finished (inl k) = inr (inl k)
Sends-IsOrderly s finished (inr k) = inr (inr k)

pub task_step-Told : (s : SessionState) (e : Completion) → Told s → Told ((task_step s e).0)
unfolding task_step
task_step-Told s e k = complete-Told s s.task e refl k
