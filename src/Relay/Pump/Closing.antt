-- ===== src/Relay/Pump/Closing.antt =====
-- How a direction of a pair ends: after the connection has ended, and after a frame that says so.
use msg.Prelude.{
  ℕ, zero, suc, ◌+◌, ◌-◌, ◌≤◌, ◌<◌, ◌≡◌, refl, sym, ap, ◌∙◌, true, false, Option, ap₂,
  if◌then◌else◌, none, List, [], ◌∷◌, ◌++◌, All, length, append-nil, length-append, ok, ◌>>=◌,
  arith,
}
use msg.Bytes.{Byte, ByteVector}
use msg.Bytes.BigEndian.{word_bytes}
use msg.Relay.Frame.{Frame, eof_method, write_frame, read_frame}
use msg.Relay.Frame.RoundTrip.{read_frame-write_frame, read_header_cut}
use msg.Relay.Pump.{
  Pump, send_frame, pump_loop, on_frame, after_eof, after_last, close_pair, pump_one_way,
}
use msg.Relay.Pump.Frames.{
  IsCarried, incoming, outgoing, passed, send_some, attempt_closed, pass_frames,
}

length-incoming : (fs : List Frame) → length fs ≤ length (incoming fs)
unfolding write_frame word_bytes
length-incoming [] = omega arith
length-incoming (f ∷ fs) =
    omega (arith, length-incoming fs, length-append (write_frame f.method f.body) (incoming fs))

-- The connection has ended.
loop_ends :
    (fuel : ℕ) (role : Byte) (p : Pump) → 0 < fuel → p.arriving ≡ [] → pump_loop fuel role p ≡ ok p
unfolding pump_loop
loop_ends zero role p h e = absurd (omega arith)
loop_ends (suc fuel) role p h e =
    ap (on_frame (λ q. pump_loop fuel role q) role p)
      (ap read_frame e ∙ read_header_cut [] (omega arith))

-- A frame for the end of the stream comes next, and there is room for it.
loop_told :
    (fuel : ℕ) (role : Byte) (rest : ByteVector) (n : ℕ) (p : Pump)
    → 0 < fuel
    → p.arriving ≡ write_frame eof_method [] ++ rest
    → p.room ≡ suc n
    → p.to_open ≡ true
    → pump_loop fuel role p
      ≡ ok
          (record p { written = p.written ++ write_frame eof_method []; room = n; to_open = false })
unfolding pump_loop
loop_told zero role rest n p h e r o = absurd (omega arith)
loop_told (suc fuel) role rest n p h e r o =
    ap (on_frame (λ q. pump_loop fuel role q) role p)
      (ap read_frame e ∙ read_frame-write_frame eof_method [] rest (omega arith))
    ∙ ap (after_eof p) (send_some p n eof_method [] r o)

-- Behind the loop, with the other direction not over.
close_alive :
    (p : Pump) (sent : Option Pump)
    → p.dead ≡ false
    → send_frame p eof_method [] ≡ sent
    → close_pair p ≡ after_last p sent
unfolding close_pair
close_alive p sent alive e = ap₂ (λ b s. if b then p else after_last p s) alive e

-- `from` sends frames that fit and its connection ends; `to` is open and takes them all and one
-- more, and the other direction is not over. Then `pump_one_way` returns: `to` has been sent the
-- frames in order, with NEW_SESSION from B turned into FORWARD_SESSION, and then EOF_, and both
-- sockets are closed.
pub passes_on_and_closes :
    (role : Byte) (fs : List Frame) (p : Pump)
    → All IsCarried fs
    → p.arriving ≡ incoming fs
    → p.room ≡ length fs + 1
    → p.to_open ≡ true
    → p.dead ≡ false
    → pump_one_way role p
      ≡ ok (record p {
        arriving = [];
        written = (p.written ++ outgoing role fs) ++ write_frame eof_method [];
        room = 0;
        to_open = false;
        from_open = false;
        dead = true;
      })
unfolding pump_one_way after_last
passes_on_and_closes role fs p fits e r o alive =
    let q : Pump = passed role fs [] 1 p in
    let looped : pump_loop (length p.arriving + 1) role p ≡ ok q =
      pass_frames (length p.arriving + 1) role fs [] 1 p fits (e ∙ sym (append-nil (incoming fs))) r
        o (omega (arith, ap length e, length-incoming fs))
      ∙ loop_ends (length p.arriving + 1 - length fs) role q
          (omega (arith, ap length e, length-incoming fs)) refl in
    ap (λ m. m >>= λ t. ok (close_pair t)) looped
    ∙ ap ok (close_alive q _ alive (send_some q 0 eof_method [] refl o))

-- `from` sends frames that fit and then an EOF_ frame; `to` is open and has room for all of it, and
-- the other direction is not over. Then `pump_one_way` returns with `to` closed but `from` as open
-- as it was: the second EOF_ goes to the socket that has just been closed, and its exception keeps
-- the code from closing `from`.
pub told_end_leaves_open :
    (role : Byte) (fs : List Frame) (rest : ByteVector) (n : ℕ) (p : Pump)
    → All IsCarried fs
    → p.arriving ≡ incoming fs ++ (write_frame eof_method [] ++ rest)
    → p.room ≡ length fs + suc n
    → p.to_open ≡ true
    → p.dead ≡ false
    → pump_one_way role p
      ≡ ok (record p {
        arriving = write_frame eof_method [] ++ rest;
        written = (p.written ++ outgoing role fs) ++ write_frame eof_method [];
        room = n;
        to_open = false;
        dead = true;
      })
unfolding pump_one_way send_frame after_last
told_end_leaves_open role fs rest n p fits e r o alive =
    let tail = write_frame eof_method [] ++ rest in
    let q : Pump = passed role fs tail (suc n) p in
    let enough : length fs ≤ length p.arriving =
      omega (arith, ap length e, length-incoming fs, length-append (incoming fs) tail) in
    let left : Pump = record q {
      written = q.written ++ write_frame eof_method [];
      room = n;
      to_open = false;
    } in
    let looped : pump_loop (length p.arriving + 1) role p ≡ ok left =
      pass_frames (length p.arriving + 1) role fs tail (suc n) p fits e r o (omega (arith, enough))
      ∙ loop_told (length p.arriving + 1 - length fs) role rest n q (omega (arith, enough)) refl
          refl o in
    ap (λ m. m >>= λ t. ok (close_pair t)) looped
    ∙ ap ok (close_alive left none alive (attempt_closed left (write_frame eof_method []) n))
