-- ===== src/Relay/Pump/Frames.antt =====
-- Frames that arrive whole are passed on in order.
use msg.Prelude.{
  ℕ, zero, suc, ◌+◌, ◌-◌, ◌^◌, ◌≤◌, ◌<◌, ◌≡◌, refl, sym, ap, ap₂, ◌∙◌, true, false, none, some,
  List, [], ◌∷◌, ◌++◌, All, length, append_assoc, append-nil, ◌==◌, Result, ok, arith,
}
use msg.Bytes.{Byte, ByteVector}
use msg.Relay.Frame.{Frame, eof_method, write_frame, read_frame}
use msg.Relay.Frame.RoundTrip.{read_frame-write_frame}
use msg.Relay.Pump.{Pump, attempt, send_frame, translated, pump_loop}

-- A frame that a node sends: its length fits into 32 bits, and it does not end the stream.
abbrev pub IsCarried : Frame → Type 0
IsCarried f = (1 + length f.body < 2 ^ 32) × ((f.method == eof_method) ≡ false)

abbrev pub incoming : List Frame → ByteVector
incoming [] = []
incoming (f ∷ fs) = write_frame f.method f.body ++ incoming fs

abbrev pub outgoing : Byte → List Frame → ByteVector
outgoing role [] = []
outgoing role (f ∷ fs) = write_frame (translated role f) f.body ++ outgoing role fs

-- The state after frames have been passed on, with room for `n` more.
abbrev pub passed : Byte → List Frame → ByteVector → ℕ → Pump → Pump
passed role fs rest n p = record p {
  arriving = rest;
  written = p.written ++ outgoing role fs;
  room = n;
}

pub send_some :
    (p : Pump) (n : ℕ) (method : Byte) (body : ByteVector)
    → p.room ≡ suc n
    → p.to_open ≡ true
    → send_frame p method body
      ≡ some (record p { written = p.written ++ write_frame method body; room = n })
unfolding send_frame
send_some p n method body e o = ap₂ (attempt p (write_frame method body)) e o

-- A write to a closed socket throws.
pub attempt_closed : (p : Pump) (bytes : ByteVector) (n : ℕ) → attempt p bytes n false ≡ none
unfolding attempt
attempt_closed p bytes zero = refl
attempt_closed p bytes (suc n) = refl

-- One round.
pass_one :
    (fuel : ℕ) (role : Byte) (f : Frame) (rest : ByteVector) (n : ℕ) (p : Pump)
    → IsCarried f
    → p.arriving ≡ write_frame f.method f.body ++ rest
    → p.room ≡ suc n
    → p.to_open ≡ true
    → pump_loop (suc fuel) role p
      ≡ pump_loop fuel role (record p {
        arriving = rest;
        written = p.written ++ write_frame (translated role f) f.body;
        room = n;
      })
unfolding pump_loop
pass_one fuel role f rest n p fit e r o =
    let read : read_frame p.arriving ≡ ok (some (f, rest)) =
      ap read_frame e ∙ read_frame-write_frame f.method f.body rest fit.0 in
    rw (read, fit.1, send_some p n (translated role f) f.body r o)

abbrev pump_from : Byte → ℕ → Pump → Result Pump
pump_from role fuel p = pump_loop fuel role p

pub pass_frames :
    (fuel : ℕ) (role : Byte) (fs : List Frame) (rest : ByteVector) (n : ℕ) (p : Pump)
    → All IsCarried fs
    → p.arriving ≡ incoming fs ++ rest
    → p.room ≡ length fs + n
    → p.to_open ≡ true
    → length fs ≤ fuel
    → pump_loop fuel role p ≡ pump_loop (fuel - length fs) role (passed role fs rest n p)
pass_frames fuel role [] rest n p fits e r o enough =
    ap₂ (pump_from role) (let z : fuel ≡ fuel - 0 = omega arith in z) (λ i. record p {
      arriving = e i;
      written = sym (append-nil p.written) i;
      room = (let z : p.room ≡ n = omega arith in z) i;
    })
pass_frames zero role (f ∷ fs) rest n p fits e r o enough = absurd (omega arith)
pass_frames (suc fuel) role (f ∷ fs) rest n p (fit, fits) e r o enough =
    let q : Pump = record p {
      arriving = incoming fs ++ rest;
      written = p.written ++ write_frame (translated role f) f.body;
      room = length fs + n;
    } in
    pass_one fuel role f (incoming fs ++ rest) (length fs + n) p fit
      (e ∙ append_assoc (write_frame f.method f.body) (incoming fs) rest) (r ∙ omega arith) o
    ∙ pass_frames fuel role fs rest n q fits refl refl o (omega arith)
    ∙ ap₂ (pump_from role)
        (let z : fuel - length fs ≡ suc fuel - suc (length fs) = omega arith in z)
        (λ i. record p {
          arriving = rest;
          written =
              append_assoc p.written (write_frame (translated role f) f.body) (outgoing role fs) i;
          room = n;
        })
