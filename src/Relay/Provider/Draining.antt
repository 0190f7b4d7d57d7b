-- ===== src/Relay/Provider/Draining.antt =====
-- A coroutine's step seen from its session, and the loop over `arrival_buffer`.
use msg.Prelude.{
  ℕ, ◌≡◌, refl, sym, ap, ◌∙◌, Bool, true, false, List, [], ◌∷◌, ◌++◌, map, flatten, append-nil,
  append_assoc, if◌then◌else◌, ==_iff,
}
use msg.Bytes.{ByteVector}
use msg.Relay.Provider.Task.{
  Task, Step, SessionState, Completion, wrote, pump_head, drain_next, complete, task_step,
}
use msg.Relay.Provider.{
  Provider, Loop, waiting, writing, ended, Event, task, update, run_task, step_loop, step, run,
}

pub update_here : (objects : ℕ → SessionState) (h : ℕ) (s : SessionState) → update objects h s h ≡ s
update_here objects h s = ap (λ b. if b then s else objects h) ((==_iff h h).1 refl)

-- A coroutine's step leaves the loop as it is.
pub step_task : (p : Provider) (h : ℕ) (c : Completion) → step p (task h c) ≡ run_task p h c
unfolding step step_loop
step_task p h c = by_loop p.loop
  where
    by_loop : (l : Loop) → step_loop p l (task h c) ≡ run_task p h c
    by_loop waiting = refl
    by_loop (writing k bytes) = refl
    by_loop ended = refl

pub object_after :
    (p : Provider) (h : ℕ) (c : Completion) (s : SessionState)
    → p.objects h ≡ s
    → (step p (task h c)).objects h ≡ (task_step s c).0
unfolding run_task
object_after p h c s e =
    ap (λ q. q.objects h) (step_task p h c)
    ∙ update_here p.objects h (task_step (p.objects h) c).0
    ∙ ap (λ t. (task_step t c).0) e

pump_head_written : (s : SessionState) → ((pump_head s).0).written ≡ s.written
unfolding pump_head
pump_head_written s = by_flag s.closed
  where
    by_flag :
        (b : Bool)
        → ((if◌then◌else◌ {A = Step} b
            (record s { task = Task.finished }, true)
            (record s { task = Task.reading }, false)).0
          ).written
          ≡ s.written
    by_flag true = refl
    by_flag false = refl

abbrev pub drains : ℕ → List ByteVector → List Event
drains h chunks = map (λ c. task h wrote) chunks

-- The loop over `arrival_buffer` writes each buffer in turn.
pub drain_written :
    (chunks : List ByteVector) (p : Provider) (h : ℕ) (s : SessionState)
    → p.objects h ≡ (drain_next s chunks).0
    → ((run p (drains h chunks)).objects h).written ≡ s.written ++ flatten chunks
unfolding run drain_next task_step complete flatten
drain_written [] p h s e = ap (λ t. t.written) e ∙ pump_head_written _ ∙ sym (append-nil s.written)
drain_written (c ∷ chunks) p h s e =
    drain_written chunks _ h _ (object_after p h wrote _ e)
    ∙ append_assoc s.written c (flatten chunks)
