-- ===== src/Relay/Provider/Finishing.antt =====
-- The end of a session's coroutine once the session is closed.
use msg.Prelude.{
  ℕ, ◌+◌, ◌≤◌, ◌<◌, ◌≡◌, refl, sym, ap, subst, ◌⊎◌, inl, inr, Bool, true, false, ◌||◌, List, [],
  ◌∷◌, length, if◌then◌else◌, arith,
}
use msg.Bytes.{ByteVector}
use msg.Relay.Provider.Task.{
  read_on, after_eof, after_close, Task, connecting_to, reporting_error, reporting_ok, draining,
  reading, sending, finished, SessionState, Completion, connected, connect_failed, frame_sent,
  wrote, write_failed, received_bytes, end_of_file, read_failed, report, pump_head, drain_next,
  after_read, after_send, complete, task_step, Step,
}

-- The completions that end what the coroutine awaits.
abbrev pub awaits : Task → Completion → Bool
awaits connecting_to connected = true
awaits connecting_to connect_failed = true
awaits reporting_error frame_sent = true
awaits reporting_ok frame_sent = true
awaits (draining (b ∷ bs)) wrote = true
awaits (draining (b ∷ bs)) write_failed = true
awaits reading (received_bytes bs) = true
awaits reading end_of_file = true
awaits reading (read_failed bs) = true
awaits (sending next) frame_sent = true
awaits _ _ = false

abbrev pub go_on : SessionState → List Completion → SessionState
go_on s [] = s
go_on s (e ∷ es) = go_on (task_step s e).0 es

abbrev pub AllAwaited : SessionState → List Completion → Type 0
AllAwaited s [] = Unit
AllAwaited s (e ∷ es) = (awaits s.task e ≡ true) × AllAwaited (task_step s e).0 es

-- How many completions a closed session can have before it.
abbrev pub left_to_do : SessionState → Task → ℕ
left_to_do s connecting_to = 3 + length s.arrival_buffer
left_to_do s reporting_error = 1
left_to_do s reporting_ok = 2 + length s.arrival_buffer
left_to_do s (draining bs) = 1 + length bs
left_to_do s reading = 2
left_to_do s (sending next) = 1
left_to_do s finished = 0

-- A step that keeps the session closed and comes nearer to the end.
abbrev Nears : SessionState → ℕ → Type 0
Nears s n = (s.closed ≡ true) × (left_to_do s s.task < n)

pump_head-Nears : (s : SessionState) (n : ℕ) → s.closed ≡ true → 1 ≤ n → Nears ((pump_head s).0) n
unfolding pump_head
pump_head-Nears s n h pos =
    subst
      (λ b.
        Nears
          (if◌then◌else◌ {A = Step} b (record s { task = finished }, true)
            (record s { task = reading }, false)).0
          n)
      (sym h) (h, pos)

drain_next-Nears :
    (s : SessionState) (bs : List ByteVector) (n : ℕ)
    → s.closed ≡ true
    → 1 + length bs < n
    → Nears ((drain_next s bs).0) n
unfolding drain_next
drain_next-Nears s [] n h small = pump_head-Nears _ n h (omega arith)
drain_next-Nears s (b ∷ bs) n h small = (h, small)

last_drain-Nears :
    (s : SessionState) (bs : List ByteVector) (n : ℕ)
    → s.closed ≡ true
    → length bs < n
    → 1 ≤ n
    → Nears ((drain_next s bs).0) (1 + n)
unfolding drain_next
last_drain-Nears s [] n h small pos = pump_head-Nears _ (1 + n) h (omega arith)
last_drain-Nears s (b ∷ bs) n h small pos = (h, omega arith)

complete-Nears :
    (s : SessionState) (t : Task) (e : Completion)
    → s.closed ≡ true
    → awaits t e ≡ true
    → Nears ((complete s t e).0) (left_to_do s t)
unfolding complete after_read after_send report
complete-Nears s connecting_to connected h a = (h, omega arith)
complete-Nears s connecting_to connect_failed h a = (h, omega arith)
complete-Nears s reporting_error frame_sent h a = (refl, omega arith)
complete-Nears s reporting_ok frame_sent h a = drain_next-Nears s s.arrival_buffer _ h (omega arith)
complete-Nears s (draining (b ∷ bs)) wrote h a =
    last_drain-Nears _ bs _ h (omega arith) (omega arith)
complete-Nears s (draining (b ∷ bs)) write_failed h a = (h, omega arith)
complete-Nears s reading (received_bytes (b ∷ bs)) h a = (h, omega arith)
complete-Nears s reading (received_bytes []) h a = (h, omega arith)
complete-Nears s reading end_of_file h a = (h, omega arith)
complete-Nears s reading (read_failed (b ∷ bs)) h a = (h, omega arith)
complete-Nears s reading (read_failed []) h a = (h, omega arith)
complete-Nears s (sending read_on) frame_sent h a = pump_head-Nears s 1 h (omega arith)
complete-Nears s (sending after_eof) frame_sent h a =
    (ap (λ b. b || s.half_close_recv) h, omega arith)
complete-Nears s (sending after_close) frame_sent h a = (refl, omega arith)
complete-Nears s t e h a = absurd (cc)

-- The coroutine has finished, or something is left.
finished_or_left : (s : SessionState) (t : Task) → (t ≡ finished) ⊎ (1 ≤ left_to_do s t)
finished_or_left s connecting_to = inr (omega arith)
finished_or_left s reporting_error = inr (omega arith)
finished_or_left s reporting_ok = inr (omega arith)
finished_or_left s (draining bs) = inr (omega arith)
finished_or_left s reading = inr (omega arith)
finished_or_left s (sending next) = inr (omega arith)
finished_or_left s finished = inl refl

completions_bounded :
    (es : List Completion) (s : SessionState)
    → s.closed ≡ true
    → AllAwaited s es
    → length es + left_to_do (go_on s es) (go_on s es).task ≤ left_to_do s s.task
unfolding task_step
completions_bounded [] s h a = omega arith
completions_bounded (e ∷ es) s h (now, later) =
    let near = complete-Nears s s.task e h now in
    omega (arith, near.1, completions_bounded es (complete s s.task e).0 near.0 later)

-- A closed session has done all it does once as many awaited completions have come as the bound says,
-- whatever they are, and no more can come.
pub closed_session_finishes :
    (s : SessionState) (es : List Completion)
    → s.closed ≡ true
    → AllAwaited s es
    → (length es + left_to_do (go_on s es) (go_on s es).task ≤ left_to_do s s.task)
      × (((go_on s es).task ≡ finished) ⊎ (length es < left_to_do s s.task))
closed_session_finishes s es h a =
    let bound = completions_bounded es s h a in
    elim (finished_or_left (go_on s es) (go_on s es).task) [
      | inl done ↦ (bound, inl done)
      | inr more ↦ (bound, inr (omega (arith, bound, more)))
    ]
