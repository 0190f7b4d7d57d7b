-- ===== src/Relay/Visitor/Sending.antt =====
-- What the visitor sends to the server for a client: the frames of the accept loop and of the client's
-- coroutine, among which the loop over the frames may send SESSION_CLOSE at any time.
use msg.Prelude.{
  ◌≡◌, refl, sym, ap, subst, ◌∙◌, ◌++◌, append-nil, ◌==◌, All, Bool-cases, ◌⊎◌, inl, inr, Bool,
  true, false, List, [], ◌∷◌, if◌then◌else◌,
}
use msg.Bytes.{ByteVector}
use msg.Relay.Frame.{Frame, session_close_method}
use msg.Relay.Talk.{
  Talk, next_word, last_word, new_session_frame, data_frame, eof_frame, close_frame,
}
use msg.Relay.Visitor.Client.{
  read_on, after_eof, after_close, Task, unstarted, spawned, reading, sending, finished,
  ClientSession, Completion, Step, begun, frame_sent, received_bytes, end_of_file, read_failed,
  spawn, hand, leave, pump_head, after_read, after_send, complete,
}

-- The frames but SESSION_CLOSE.
unfoldable pub without_close : List Frame → List Frame
without_close [] = []
without_close (f ∷ fs) =
    let rest = without_close fs in if f.method == session_close_method then rest else f ∷ rest

abbrev pub IsNoClose : Frame → Type 0
IsNoClose f = (f.method == session_close_method) ≡ false

without_close_same : (fs : List Frame) → All IsNoClose fs → without_close fs ≡ fs
unfolding without_close
without_close_same [] all = refl
without_close_same (f ∷ fs) all = rw all.0 (ap (◌∷◌ f) (without_close_same fs all.1))

without_close-append :
    (fs gs : List Frame) → without_close (fs ++ gs) ≡ without_close fs ++ without_close gs
unfolding without_close
without_close-append [] gs = refl
without_close-append (f ∷ fs) gs = elim (Bool-cases (f.method == session_close_method)) [
  | inl e ↦ rw e (without_close-append fs gs)
  | inr e ↦ rw e (ap (◌∷◌ f) (without_close-append fs gs))
]

kept_last :
    (fs : List Frame) (f : Frame)
    → IsNoClose f
    → without_close (fs ++ f ∷ []) ≡ without_close fs ++ f ∷ []
unfolding without_close
kept_last fs f e = without_close-append fs (f ∷ []) ∙ rw e refl

pub close_dropped :
    (fs : List Frame) (uuid : ByteVector)
    → without_close (fs ++ close_frame uuid ∷ []) ≡ without_close fs
unfolding without_close
close_dropped fs uuid =
    without_close-append fs (close_frame uuid ∷ []) ∙ append-nil (without_close fs)

abbrev pub Talks : ByteVector → List Frame → ByteVector → List Frame → Type 0
Talks uuid sent = Talk (new_session_frame uuid) uuid (without_close sent)

-- What is sent, by where the coroutine is.
abbrev pub Sends : ByteVector → List Frame → ByteVector → Task → Type 0
Sends uuid sent received (sending after_eof) = Talks uuid sent received (eof_frame uuid ∷ [])
Sends uuid sent received finished =
    (without_close sent ≡ [])
    ⊎ (Talks uuid sent received [] ⊎ Talks uuid sent received (eof_frame uuid ∷ []))
Sends uuid sent received _ = Talks uuid sent received []

abbrev pub Told : ClientSession → Type 0
Told s = Sends s.uuid s.sent s.received s.task

-- NEW_SESSION and DATA so far.
abbrev pub Speaks : ClientSession → Type 0
Speaks s = Talks s.uuid s.sent s.received []

-- Without a SESSION_CLOSE, these are all the frames.
pub without_close-Talk :
    (s : ClientSession)
    → Speaks s
    → All IsNoClose s.sent
    → Talk (new_session_frame s.uuid) s.uuid s.sent s.received []
without_close-Talk s k all =
    subst (λ fs. Talk (new_session_frame s.uuid) s.uuid fs s.received [])
      (without_close_same s.sent all) k

pump_head-Told : (s : ClientSession) → Speaks s → Told ((pump_head s).0)
unfolding pump_head leave
pump_head-Told s k = by_flag s.closed
  where
    by_flag :
        (b : Bool)
        → Told (
            (if◌then◌else◌ {A = Step} b
              (record s { task = finished }, s.closed)
              (record s { task = reading }, false)).0)
    by_flag true = inr (inl k)
    by_flag false = k

-- One more frame that is not SESSION_CLOSE.
said :
    (s : ClientSession) (f : Frame) (received : ByteVector) (tail : List Frame)
    → IsNoClose f
    → Talk (new_session_frame s.uuid) s.uuid (without_close s.sent ++ f ∷ []) received tail
    → Talks s.uuid (s.sent ++ f ∷ []) received tail
said s f received tail other k =
    subst (λ fs. Talk (new_session_frame s.uuid) s.uuid fs received tail)
      (sym (kept_last s.sent f other)) k

eof_said :
    (s : ClientSession)
    → Speaks s
    → Talks s.uuid (s.sent ++ eof_frame s.uuid ∷ []) s.received (eof_frame s.uuid ∷ [])
eof_said s k = said s (eof_frame s.uuid) s.received _ refl (last_word (eof_frame s.uuid) k)

pub complete-Told :
    (s : ClientSession) (t : Task) (e : Completion)
    → s.task ≡ t
    → Sends s.uuid s.sent s.received t
    → Told ((complete s t e).0)
unfolding complete after_read after_send leave hand
complete-Told s spawned begun h k = pump_head-Told s k
complete-Told s reading (received_bytes (b ∷ bs)) h k =
    said s (data_frame s.uuid (b ∷ bs)) _ [] refl (next_word (b ∷ bs) k)
complete-Told s reading (received_bytes []) h k = eof_said s k
complete-Told s reading end_of_file h k = eof_said s k
complete-Told s reading (read_failed []) h k = eof_said s k
complete-Told s reading (read_failed (b ∷ bs)) h k =
    subst (λ fs. Talk (new_session_frame s.uuid) s.uuid fs s.received [])
      (sym (close_dropped s.sent s.uuid)) k
complete-Told s (sending read_on) frame_sent h k = pump_head-Told s k
complete-Told s (sending after_eof) frame_sent h k = inr (inr k)
complete-Told s (sending after_close) frame_sent h k = inr (inl k)
complete-Told s t e h k = subst (Sends s.uuid s.sent s.received) (sym h) k

pub spawn-Told :
    (s : ClientSession) (t : Task)
    → s.task ≡ t
    → Sends s.uuid s.sent s.received t
    → Told (spawn s t)
unfolding spawn
spawn-Told s unstarted h k = k
spawn-Told s t h k = subst (Sends s.uuid s.sent s.received) (sym h) k

-- SESSION_CLOSE that is reported by the loop over the frames.
pub report-Told :
    (s : ClientSession) (uuid : ByteVector)
    → Told s
    → Told (record s { sent = s.sent ++ close_frame uuid ∷ [] })
report-Told s uuid k = reported s.task k
  where
    same : without_close s.sent ≡ without_close (s.sent ++ close_frame uuid ∷ [])
    same = sym (close_dropped s.sent uuid)

    talk :
        (tail : List Frame)
        → Talks s.uuid s.sent s.received tail
        → Talks s.uuid (s.sent ++ close_frame uuid ∷ []) s.received tail
    talk tail k = subst (λ fs. Talk (new_session_frame s.uuid) s.uuid fs s.received tail) same k

    reported :
        (t : Task)
        → Sends s.uuid s.sent s.received t
        → Sends s.uuid (s.sent ++ close_frame uuid ∷ []) s.received t
    reported (sending after_eof) k = talk (eof_frame s.uuid ∷ []) k
    reported (sending after_close) k = talk [] k
    reported (sending read_on) k = talk [] k
    reported unstarted k = talk [] k
    reported spawned k = talk [] k
    reported reading k = talk [] k
    reported finished (inl k) = inl (sym same ∙ k)
    reported finished (inr (inl k)) = inr (inl (talk [] k))
    reported finished (inr (inr k)) = inr (inr (talk (eof_frame s.uuid ∷ []) k))

-- All that has been sent for a client, leaving out SESSION_CLOSE: nothing before there is one; or
-- NEW_SESSION, then DATA frames that hold the bytes of the client in order, and then DATA_EOF or nothing.
abbrev pub IsOrderly : ClientSession → Type 0
IsOrderly s =
    (without_close s.sent ≡ [])
    ⊎ (Speaks s ⊎ Talks s.uuid s.sent s.received (eof_frame s.uuid ∷ []))

pub Sends-IsOrderly :
    (s : ClientSession) (t : Task) → Sends s.uuid s.sent s.received t → IsOrderly s
Sends-IsOrderly s (sending after_eof) k = inr (inr k)
Sends-IsOrderly s (sending after_close) k = inr (inl k)
Sends-IsOrderly s (sending read_on) k = inr (inl k)
Sends-IsOrderly s unstarted k = inr (inl k)
Sends-IsOrderly s spawned k = inr (inl k)
Sends-IsOrderly s reading k = inr (inl k)
Sends-IsOrderly s finished k = k
