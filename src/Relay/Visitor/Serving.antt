-- ===== src/Relay/Visitor/Serving.antt =====
-- One step of the visitor, seen from one client.
use msg.Prelude.{
  ℕ, ◌≡◌, refl, sym, ap, subst, ◌∙◌, true, false, none, some, [], ◌∷◌, ◌++◌, append-nil, length,
  drop, take-append, drop-append, length-append, ltb, le→ltb, ◌==◌, if◌then◌else◌, arith,
}
use msg.Bytes.{Byte, ByteVector}
use msg.Bytes.Table.{lookup, erase, lookup-erase_self}
use msg.Relay.Frame.{Frame, build_uuid_data_body, uuid_bytes, eof_method}
use msg.Relay.Talk.{data_frame, eof_frame}
use msg.Relay.Visitor.Client.{ClientSession, Completion, task_step}
use msg.Relay.Visitor.Stored.{update_here}
use msg.Relay.Visitor.{
  Visitor, Reader, waiting, writing, frame, task, take_data, take_eof, dispatch, take_frame, settle,
  step_reader, step,
}

-- The loop over the frames is at `reader`, and the session of `uuid` is in the state `s`.
pub record Serves (v : Visitor) (reader : Reader) (uuid : ByteVector) (h : ℕ) (s : ClientSession)
    : Type 0 where
  pub at : v.reader ≡ reader
  pub found : lookup uuid v.sessions ≡ some h
  pub object : v.objects h ≡ s

-- The session of `uuid` has no entry any more.
pub record Gone (v : Visitor) (reader : Reader) (uuid : ByteVector) (h : ℕ) (s : ClientSession)
    : Type 0 where
  pub at : v.reader ≡ reader
  pub missing : lookup uuid v.sessions ≡ none
  pub object : v.objects h ≡ s

settle-Serves :
    (v : Visitor) (reader : Reader) (uuid : ByteVector) (h : ℕ) (s : ClientSession)
    → Serves v reader uuid h s
    → (t : ClientSession) → Serves (settle v h (t, false)) reader uuid h t
unfolding settle
settle-Serves v reader uuid h s k t = record {
  at = k.at;
  found = k.found;
  object = update_here v.objects h t;
}

-- A coroutine's step that leaves the entry, and one that erases it.
pub task-Serves :
    (v : Visitor) (reader : Reader) (uuid : ByteVector) (h : ℕ) (s t : ClientSession)
    (e : Completion)
    → Serves v reader uuid h s
    → task_step s e ≡ (t, false)
    → Serves (step v (task h e)) reader uuid h t
unfolding step
task-Serves v reader uuid h s t e k stepped =
    subst (λ r. Serves (settle v h r) reader uuid h t)
      (sym (ap (λ x. task_step x e) k.object ∙ stepped)) (settle-Serves v reader uuid h s k t)

pub task-Gone :
    (v : Visitor) (reader : Reader) (uuid : ByteVector) (h : ℕ) (s t : ClientSession)
    (e : Completion)
    → Serves v reader uuid h s
    → task_step s e ≡ (t, true)
    → t.uuid ≡ uuid
    → Gone (step v (task h e)) reader uuid h t
unfolding step settle
task-Gone v reader uuid h s t e k stepped u =
    subst (λ r. Gone (settle v h r) reader uuid h t)
      (sym (ap (λ x. task_step x e) k.object ∙ stepped))
      (record {
        at = k.at;
        missing = ap (λ i. lookup uuid (erase i v.sessions)) u ∙ lookup-erase_self uuid v.sessions;
        object = update_here v.objects h t;
      })

-- A frame whose body begins with an identifier of the protocol's length is dispatched under it.
take_found :
    (v : Visitor) (f : Frame) (uuid rest : ByteVector)
    → (f.method == eof_method) ≡ false
    → f.body ≡ uuid ++ rest
    → length uuid ≡ uuid_bytes
    → take_frame v f ≡ dispatch v f uuid (lookup uuid v.sessions)
unfolding take_frame
take_found v f uuid rest other body size =
    let long : ltb (length (uuid ++ rest)) uuid_bytes ≡ false =
      le→ltb (length (uuid ++ rest)) uuid_bytes (omega (arith, length-append uuid rest)) in
    rw (other, body, long, take-append uuid_bytes uuid rest size)

-- A frame that the loop awaits.
step_found :
    (v : Visitor) (f : Frame) (uuid rest : ByteVector) (h : ℕ) (s : ClientSession)
    → Serves v waiting uuid h s
    → (f.method == eof_method) ≡ false
    → f.body ≡ uuid ++ rest
    → length uuid ≡ uuid_bytes
    → step v (frame f) ≡ dispatch v f uuid (some h)
unfolding step step_reader
step_found v f uuid rest h s k other body size =
    ap (λ r. step_reader v r (frame f)) k.at
    ∙ take_found v f uuid rest other body size
    ∙ ap (dispatch v f uuid) k.found

-- DATA that holds something makes the loop write it.
pub step_data :
    (v : Visitor) (uuid : ByteVector) (b : Byte) (bs : ByteVector) (h : ℕ) (s : ClientSession)
    → Serves v waiting uuid h s
    → length uuid ≡ uuid_bytes
    → step v (frame (data_frame uuid (b ∷ bs))) ≡ record v { reader = writing uuid h (b ∷ bs) }
unfolding dispatch take_data build_uuid_data_body
step_data v uuid b bs h s k size =
    let full : ltb 0 (length (b ∷ bs)) ≡ true = ground arith in
    let body : build_uuid_data_body uuid (b ∷ bs) ≡ uuid ++ b ∷ bs =
      ap (λ t. if t then uuid ++ b ∷ bs else uuid) full in
    let taken : dispatch v (data_frame uuid (b ∷ bs)) uuid (some h) ≡ take_data v uuid h (b ∷ bs) =
      ap (take_data v uuid h)
        (ap (drop uuid_bytes) body ∙ drop-append uuid_bytes uuid (b ∷ bs) size) in
    step_found v (data_frame uuid (b ∷ bs)) uuid (b ∷ bs) h s k refl body size
    ∙ taken
    ∙ ap (λ t. if t then record v { reader = writing uuid h (b ∷ bs) } else v) full

step_eof :
    (v : Visitor) (uuid : ByteVector) (h : ℕ) (s : ClientSession)
    → Serves v waiting uuid h s
    → length uuid ≡ uuid_bytes
    → step v (frame (eof_frame uuid)) ≡ take_eof v uuid h
unfolding dispatch
step_eof v uuid h s k size =
    step_found v (eof_frame uuid) uuid [] h s k refl (sym (append-nil uuid)) size

-- DATA_EOF before the client has ended, and after it has.
pub eof-Serves :
    (v : Visitor) (uuid : ByteVector) (h : ℕ) (s : ClientSession)
    → Serves v waiting uuid h s
    → length uuid ≡ uuid_bytes
    → s.half_close_send ≡ false
    → Serves
        (step v (frame (eof_frame uuid)))
        waiting
        uuid
        h
        (record s { half_close_recv = true; client_shut = true })
unfolding take_eof
eof-Serves v uuid h s k size more =
    subst (λ w. Serves w waiting uuid h (record s { half_close_recv = true; client_shut = true }))
      (sym (step_eof v uuid h s k size))
      (rw (k.object, more)
        (record { at = k.at; found = k.found; object = update_here v.objects h _ }))

pub eof-Gone :
    (v : Visitor) (uuid : ByteVector) (h : ℕ) (s : ClientSession)
    → Serves v waiting uuid h s
    → length uuid ≡ uuid_bytes
    → s.half_close_send ≡ true
    → Gone
        (step v (frame (eof_frame uuid)))
        waiting
        uuid
        h
        (record s { half_close_recv = true; client_shut = true; closed = true })
unfolding take_eof
eof-Gone v uuid h s k size over =
    subst
      (λ w.
        Gone w waiting uuid h
          (record s { half_close_recv = true; client_shut = true; closed = true }))
      (sym (step_eof v uuid h s k size))
      (rw (k.object, over)
        (record {
          at = k.at;
          missing = lookup-erase_self uuid v.sessions;
          object = update_here v.objects h _;
        }))
