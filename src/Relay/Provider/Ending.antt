-- ===== src/Relay/Provider/Ending.antt =====
-- How sessions end at the provider: a write to a remote that fails, and the end of what a remote sends.
use msg.Prelude.{
  ℕ, ◌≡◌, refl, sym, ap, ap₂, subst, ◌∙◌, inl, inr, Bool, true, false, none, some, List, [], ◌∷◌,
  ◌||◌, length, ◌==◌, if◌then◌else◌, Bool-cases, some_inj,
}
use msg.Bytes.{ByteVector}
use msg.Bytes.Equal.{same}
use msg.Bytes.Table.{lookup, erase, lookup-erase_self}
use msg.Relay.Frame.{uuid_bytes}
use msg.Relay.Provider.Task.{
  SessionState, Step, finished, sending, after_eof, frame_sent, task_step, complete, after_send,
}
use msg.Relay.Talk.{data_frame}
use msg.Relay.Provider.Draining.{update_here, step_task}
use msg.Relay.Provider.Arriving.{data_for_nobody}
use msg.Relay.Provider.{
  Provider, waiting, writing, ended, Event, frame, server_gone, write_done, write_threw, task,
  update, put, close_remotes, end_all, run_task, step_loop, step, run,
}

-- Once closed, a remote stays closed as the loop goes on.
close_remotes_keeps :
    (entries : List (ByteVector × ℕ)) (objects : ℕ → SessionState) (k : ℕ)
    → (objects k).remote_open ≡ false
    → (close_remotes entries objects k).remote_open ≡ false
unfolding close_remotes
close_remotes_keeps [] objects k h = h
close_remotes_keeps ((uuid, j) ∷ entries) objects k h =
    close_remotes_keeps entries _ k (by_test (k == j))
  where
    by_test :
        (b : Bool)
        → (if b then (record (objects j) { remote_open = false }) else objects k).remote_open
          ≡ false
    by_test true = refl
    by_test false = h

close_remotes_reaches :
    (entries : List (ByteVector × ℕ)) (objects : ℕ → SessionState) (uuid : ByteVector) (k : ℕ)
    → lookup uuid entries ≡ some k
    → (close_remotes entries objects k).remote_open ≡ false
unfolding close_remotes lookup
close_remotes_reaches [] objects uuid k h = absurd (cc)
close_remotes_reaches ((i, j) ∷ entries) objects uuid k h = elim (Bool-cases (same i uuid)) [
  | inl agree ↦
      let here : j ≡ k =
        some_inj (ap (λ b. if b then some j else lookup uuid entries) (sym agree) ∙ h) in
      close_remotes_keeps entries _ k (
        ap (λ n. (update objects j (record (objects j) { remote_open = false }) n).remote_open)
          (sym here)
        ∙ ap (λ s. s.remote_open)
            (update_here objects j (record (objects j) { remote_open = false })))
  | inr differ ↦
      close_remotes_reaches entries _ uuid k
        (ap (λ b. if b then some j else lookup uuid entries) (sym differ) ∙ h)
]

-- Behind the loop there are only coroutines left, without entries.
abbrev pub IsOver : Provider → Type 0
IsOver p = (p.sessions ≡ []) × (p.loop ≡ ended)

erase_none :
    (gone : Bool) (uuid : ByteVector) (t : List (ByteVector × ℕ))
    → t ≡ []
    → (if gone then erase uuid t else t) ≡ []
unfolding erase
erase_none true uuid t h = ap (erase uuid) h
erase_none false uuid t h = h

IsOver-stays : (p : Provider) (e : Event) → IsOver p → IsOver (step_loop p ended e)
unfolding step_loop run_task
IsOver-stays p (task k c) h = (erase_none _ _ p.sessions h.0, h.1)
IsOver-stays p (frame f) h = h
IsOver-stays p server_gone h = h
IsOver-stays p write_done h = h
IsOver-stays p write_threw h = h

step-IsOver : (p : Provider) (e : Event) → IsOver p → IsOver (step p e)
unfolding step
step-IsOver p e h = subst (λ l. IsOver (step_loop p l e)) (sym h.1) (IsOver-stays p e h)

run-IsOver : (es : List Event) (p : Provider) → IsOver p → IsOver (run p es)
unfolding run
run-IsOver [] p h = h
run-IsOver (e ∷ es) p h = run-IsOver es (step p e) (step-IsOver p e h)

-- When the write of DATA to the remote of one session fails, the provider gives up all of them: the
-- remote of every entry is closed, and whatever happens then, there are no entries and no frame is
-- read.
pub failed_write_ends_all :
    (p : Provider) (h : ℕ) (bytes uuid : ByteVector) (k : ℕ) (es : List Event)
    → p.loop ≡ writing h bytes
    → lookup uuid p.sessions ≡ some k
    → (((step p write_threw).objects k).remote_open ≡ false) × IsOver (run (step p write_threw) es)
unfolding step step_loop end_all
failed_write_ends_all p h bytes uuid k es loop found =
    let threw : step p write_threw ≡ end_all p = ap (λ l. step_loop p l write_threw) loop in
    (
      ap (λ q. (q.objects k).remote_open) threw
          ∙ close_remotes_reaches p.sessions p.objects uuid k found,
      run-IsOver es (step p write_threw) (subst IsOver (sym threw) (refl, refl)),
    )

-- The last step of a coroutine that has sent DATA_EOF.
abbrev gone : Provider → ℕ → Provider
gone p h =
    let s = p.objects h in
    record (put h (record s { closed = s.closed || s.half_close_recv; task = finished }) p) {
      sessions = erase s.uuid p.sessions;
    }

step-gone :
    (p : Provider) (h : ℕ)
    → (p.objects h).task ≡ sending after_eof
    → step p (task h frame_sent) ≡ gone p h
unfolding step step_loop run_task task_step complete after_send
step-gone p h at_eof =
    step_task p h frame_sent ∙ ap (λ t. gone_by (complete (p.objects h) t frame_sent)) at_eof
  where
    gone_by : Step → Provider
    gone_by (s, left) = record (put h s p) {
      sessions = if left then erase s.uuid p.sessions else p.sessions;
    }

-- A remote has sent all it has, and DATA_EOF is on its way to the server. Although the server has sent
-- no DATA_EOF and the session is not closed, its entry goes, and DATA that comes for it is dropped.
pub half_open_dropped :
    (p : Provider) (h : ℕ) (bytes : ByteVector)
    → p.loop ≡ waiting
    → (p.objects h).task ≡ sending after_eof
    → (p.objects h).closed ≡ false
    → (p.objects h).half_close_recv ≡ false
    → length (p.objects h).uuid ≡ uuid_bytes
    → let q = step p (task h frame_sent) in
      ((q.objects h).closed ≡ false)
      × ((lookup (p.objects h).uuid q.sessions ≡ none)
          × (step q (frame (data_frame (p.objects h).uuid bytes)) ≡ q))
unfolding step step_loop
half_open_dropped p h bytes loop at_eof not_closed half size =
    let s = p.objects h in
    let q = gone p h in
    let missing : lookup s.uuid q.sessions ≡ none = lookup-erase_self s.uuid p.sessions in
    let now : (q.objects h) ≡ record s { closed = s.closed || s.half_close_recv; task = finished } =
      update_here p.objects h
        (record s { closed = s.closed || s.half_close_recv; task = finished }) in
    let dropped : step q (frame (data_frame s.uuid bytes)) ≡ q =
      ap (λ l. step_loop q l (frame (data_frame s.uuid bytes))) loop
      ∙ data_for_nobody q s.uuid bytes size missing in
    rw (step-gone p h at_eof)
      (ap (λ t. t.closed) now ∙ ap₂ (λ a b. a || b) not_closed half, (missing, dropped))
