-- ===== src/Relay/Pump/Returns.antt =====
-- `pump_one_way` comes to an end on whatever a connection brings.
use msg.Prelude.{
  ℕ, zero, suc, ◌+◌, ◌<◌, ◌≡◌, refl, sym, ap, ◌∙◌, Bool, true, false, Option, none, some, [],
  length, drop, length-drop, get_or, ltb, ltb→le, if◌then◌else◌, Result, ok, throws, diverges,
  ◌>>=◌, some_inj, ok_injective, ◌≢◌, ◌==◌, arith, take, stream_ended,
}
use msg.Bytes.{Byte, ByteVector}
use msg.Bytes.BigEndian.{word_at}
use msg.Relay.Frame.{Frame, eof_method, read_frame, frame_of}
use msg.Relay.Pump.{
  Pump, send_frame, translated, after_eof, after_frame, on_frame, pump_loop, close_pair,
  pump_one_way,
}

header_of : ByteVector → ℕ
header_of input =
    word_at (get_or input 0 0) (get_or input 1 0) (get_or input 2 0) (get_or input 3 0)

-- `read_frame` by the outcomes of its tests.
abbrev read_by : ByteVector → Bool → Bool → Bool → Result (Option (Frame × ByteVector))
read_by input short empty cut =
    let whole = drop 4 input in
    if short
    then ok none
    else if empty
    then ok none
    else if cut
    then throws stream_ended
    else ok (some (frame_of (take (header_of input) whole), drop (header_of input) whole))

read_frame_by :
    (input : ByteVector)
    → read_frame input
      ≡ read_by input
          (ltb (length input) 4)
          (ltb (header_of input) 1)
          (ltb (length (drop 4 input)) (header_of input))
unfolding read_frame header_of
read_frame_by input = refl

-- What stands behind a frame is shorter than what stood before it.
rest_shorter_by :
    (input : ByteVector) (f : Frame) (rest : ByteVector) (short empty cut : Bool)
    → ltb (length input) 4 ≡ short
    → read_by input short empty cut ≡ ok (some (f, rest))
    → length rest < length input
rest_shorter_by input f rest true _ _ s e = absurd (cc)
rest_shorter_by input f rest false true _ s e = absurd (cc)
rest_shorter_by input f rest false false true s e = absurd (cc)
rest_shorter_by input f rest false false false s e =
    let whole = drop 4 input in
    let same : drop (header_of input) whole ≡ rest =
      ap (λ (r : Frame × ByteVector). r.1) (some_inj (ok_injective e)) in
    omega (
      arith,
      ap length same,
      length-drop (header_of input) whole,
      length-drop 4 input,
      ltb→le (length input) 4 s,
    )

rest_shorter :
    (input : ByteVector) (f : Frame) (rest : ByteVector)
    → read_frame input ≡ ok (some (f, rest))
    → length rest < length input
rest_shorter input f rest e =
    rest_shorter_by input f rest (ltb (length input) 4) (ltb (header_of input) 1)
      (ltb (length (drop 4 input)) (header_of input)) refl (sym (read_frame_by input) ∙ e)

read_by_ends :
    (input : ByteVector) (short empty cut : Bool) → read_by input short empty cut ≢ diverges
read_by_ends input true _ _ e = cc
read_by_ends input false true _ e = cc
read_by_ends input false false true e = cc
read_by_ends input false false false e = cc

never_diverges : (input : ByteVector) → read_frame input ≢ diverges
never_diverges input e =
    read_by_ends input (ltb (length input) 4) (ltb (header_of input) 1)
      (ltb (length (drop 4 input)) (header_of input)) (sym (read_frame_by input) ∙ e)

loop_returns :
    (fuel : ℕ) (role : Byte) (p : Pump)
    → length p.arriving < fuel
    → (q : Pump) × (pump_loop fuel role p ≡ ok q)
unfolding pump_loop on_frame after_eof after_frame
loop_returns zero role p h = absurd (omega arith)
loop_returns (suc fuel) role p h =
    round (λ q less. loop_returns fuel role q less) (read_frame p.arriving) refl
  where
    eof_returns : (sent : Option Pump) → (q : Pump) × (after_eof p sent ≡ ok q)
    eof_returns none = (p, refl)
    eof_returns (some q) = (_, refl)

    frame_returns :
        ((q : Pump) → length q.arriving < fuel → (r : Pump) × (pump_loop fuel role q ≡ ok r))
        → (rest : ByteVector) (sent : Option Pump) → length rest < length p.arriving
        → (q : Pump) × (after_frame (λ q. pump_loop fuel role q) rest p sent ≡ ok q)
    frame_returns again rest none less = (p, refl)
    frame_returns again rest (some q) less = again (record q { arriving = rest }) (omega arith)

    round :
        ((q : Pump) → length q.arriving < fuel → (r : Pump) × (pump_loop fuel role q ≡ ok r))
        → (m : Result (Option (Frame × ByteVector))) → read_frame p.arriving ≡ m
        → (q : Pump) × (on_frame (λ q. pump_loop fuel role q) role p m ≡ ok q)
    round again diverges e = absurd (never_diverges p.arriving e)
    round again (throws x) e = (p, refl)
    round again (ok none) e = (p, refl)
    round again (ok (some (f, rest))) e = pick (f.method == eof_method)
      where
        pick :
            (b : Bool)
            → (q : Pump) × ((if b
                  then after_eof p (send_frame p eof_method [])
                  else after_frame
                      (λ q. pump_loop fuel role q)
                      rest
                      p
                      (send_frame p (translated role f) f.body))
                ≡ ok q)
        pick true = eof_returns _
        pick false = frame_returns again rest _ (rest_shorter p.arriving f rest e)

-- Whatever bytes a connection brings before it ends, and however many writes succeed,
-- `pump_one_way` returns.
pub pump_returns : (role : Byte) (p : Pump) → (q : Pump) × (pump_one_way role p ≡ ok q)
unfolding pump_one_way
pump_returns role p =
    let (q, e) = loop_returns (length p.arriving + 1) role p (omega arith) in
    (close_pair q, ap (λ m. m >>= λ t. ok (close_pair t)) e)
