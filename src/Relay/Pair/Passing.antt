-- ===== src/Relay/Pair/Passing.antt =====
-- What the two coroutines of a pair pass on.
use msg.Prelude.{
  ◌≤◌, ◌≡◌, refl, sym, ap, ◌∙◌, ◌⊎◌, inl, inr, Bool, true, false, Bool-cases, List, [], ◌∷◌, ◌++◌,
  map, append-nil, length, ◌==◌, if◌then◌else◌, arith,
}
use mathlib.Core.List.{map-append}
use msg.Relay.Frame.{Frame, eof_method}
use msg.Relay.Pair.{
  Side, from_b, from_c, At, reading, passing, telling_end, closing, finished, failed, Way, Pair,
  way, with_way, to_open, close_to, passed, eof_frame, leave, take_frame, Event, arrived,
  stream_over, wrote, write_threw, after_write, way_step, step, run, new_pair,
}

-- All frames that were read, but the last one perhaps, have been passed on in order, and then `ends`.
pub record PassedOn (side : Side) (read sent ends : List Frame) : Type 0 where
  pub front : List Frame
  pub back : List Frame
  pub read_eq : read ≡ front ++ back
  pub short : length back ≤ 1
  pub sent_eq : sent ≡ map (passed side) front ++ ends

-- With no EOF_, or with one.
abbrev pub IsPassedOn : Side → Way → Type 0
IsPassedOn side w = PassedOn side w.read w.sent [] ⊎ PassedOn side w.read w.sent (eof_frame ∷ [])

-- What a way has passed on, by where it is and whether its socket is open.
abbrev Passes : Side → Way → At → Bool → Type 0
Passes side w reading is_open = w.sent ≡ map (passed side) w.read
Passes side w (passing f) is_open =
    (front : List Frame) × ((w.read ≡ front ++ f ∷ []) × (w.sent ≡ map (passed side) front))
Passes side w telling_end is_open = w.sent ≡ map (passed side) w.read
Passes side w closing is_open =
    PassedOn side w.read w.sent []
    ⊎ (PassedOn side w.read w.sent (eof_frame ∷ []) × (is_open ≡ false))
Passes side w _ is_open = IsPassedOn side w

-- Closing the socket does no harm.
closed_Passes :
    (side : Side) (w : Way) (at : At) (is_open : Bool)
    → Passes side w at is_open
    → Passes side w at false
closed_Passes side w reading is_open k = k
closed_Passes side w (passing f) is_open k = k
closed_Passes side w telling_end is_open k = k
closed_Passes side w closing is_open (inl k) = inl k
closed_Passes side w closing is_open (inr k) = inr (k.0, refl)
closed_Passes side w finished is_open k = k
closed_Passes side w failed is_open k = k

abbrev Good : Pair → Type 0
Good p = (side : Side) → Passes side (way side p) (way side p).at (to_open side p)

with_way-Good :
    (side : Side) (w : Way) (p : Pair)
    → Passes side w w.at (to_open side p)
    → Good p
    → Good (with_way side w p)
with_way-Good from_b w p k good from_b = k
with_way-Good from_b w p k good from_c = good from_c
with_way-Good from_c w p k good from_b = good from_b
with_way-Good from_c w p k good from_c = k

close_to-Good : (side : Side) (p : Pair) → Good p → Good (close_to side p)
close_to-Good from_b p good from_b = closed_Passes from_b p.way_b p.way_b.at p.c_open (good from_b)
close_to-Good from_b p good from_c = good from_c
close_to-Good from_c p good from_b = good from_b
close_to-Good from_c p good from_c = closed_Passes from_c p.way_c p.way_c.at p.b_open (good from_c)

closed_to : (side : Side) (p : Pair) → to_open side (close_to side p) ≡ false
closed_to from_b p = refl
closed_to from_c p = refl

close_both-Good : (p : Pair) → Good p → Good (record p { b_open = false; c_open = false })
close_both-Good p good = close_to-Good from_c (close_to from_b p) (close_to-Good from_b p good)

alive_Good : (p : Pair) → Good p → Good (record p { dead = true })
alive_Good p good from_b = good from_b
alive_Good p good from_c = good from_c

still_closed :
    (side : Side) (p : Pair)
    → to_open side p ≡ false
    → to_open side (record p { dead = true }) ≡ false
still_closed from_b p h = h
still_closed from_c p h = h

-- What a way has passed on when it leaves its loop.
abbrev Leaves : Side → Pair → Way → Type 0
Leaves side p w =
    PassedOn side w.read w.sent []
    ⊎ (PassedOn side w.read w.sent (eof_frame ∷ []) × (to_open side p ≡ false))

leave-Good : (side : Side) (p : Pair) (w : Way) → Leaves side p w → Good p → Good (leave side p w)
unfolding leave
leave-Good side p w k good = by_flag p.dead k
  where
    by_flag :
        (b : Bool)
        → Leaves side p w
        → Good (
            if b
            then with_way side (record w { at = finished }) p
            else with_way side (record w { at = closing }) (record p { dead = true }))
    by_flag true (inl k) = with_way-Good side (record w { at = finished }) p (inl k) good
    by_flag true (inr k) = with_way-Good side (record w { at = finished }) p (inr k.0) good
    by_flag false (inl k) =
        with_way-Good side (record w { at = closing }) (record p { dead = true }) (inl k)
          (alive_Good p good)
    by_flag false (inr k) =
        with_way-Good side (record w { at = closing }) (record p { dead = true })
          (inr (k.0, still_closed side p k.1)) (alive_Good p good)

-- All frames have been passed on, or all but the last.
all_passed :
    (side : Side) (read sent : List Frame)
    → sent ≡ map (passed side) read
    → PassedOn side read sent []
all_passed side read sent k = record {
  front = read;
  back = [];
  read_eq = sym (append-nil read);
  short = omega arith;
  sent_eq = k ∙ sym (append-nil (map (passed side) read));
}

all_but_last :
    (side : Side) (front read sent : List Frame) (f : Frame)
    → read ≡ front ++ f ∷ []
    → sent ≡ map (passed side) front
    → PassedOn side read sent []
all_but_last side front read sent f r k = record {
  front = front;
  back = f ∷ [];
  read_eq = r;
  short = omega arith;
  sent_eq = k ∙ sym (append-nil (map (passed side) front));
}

with_end :
    (side : Side) (read sent : List Frame)
    → PassedOn side read sent []
    → PassedOn side read (sent ++ eof_frame ∷ []) (eof_frame ∷ [])
with_end side read sent k = record {
  front = k.front;
  back = k.back;
  read_eq = k.read_eq;
  short = k.short;
  sent_eq = ap (λ fs. fs ++ eof_frame ∷ []) (k.sent_eq ∙ append-nil (map (passed side) k.front));
}

after_write-Good :
    (side : Side) (p : Pair) (w : Way) (at : At)
    → to_open side p ≡ true
    → Passes side w at (to_open side p)
    → Good p
    → Good (after_write side p w at)
unfolding after_write
after_write-Good side p w (passing f) up k good =
    with_way-Good side (record w { at = reading; sent = w.sent ++ passed side f ∷ [] }) p
      (ap (λ fs. fs ++ passed side f ∷ []) k.1.1
        ∙ sym (map-append (passed side) k.0 (f ∷ []))
        ∙ ap (map (passed side)) (sym k.1.0))
      good
after_write-Good side p w telling_end up k good =
    leave-Good side (close_to side p) _
      (inr (with_end side w.read w.sent (all_passed side w.read w.sent k), closed_to side p))
      (close_to-Good side p good)
after_write-Good side p w closing up (inl k) good =
    with_way-Good side (record w { at = finished; sent = w.sent ++ eof_frame ∷ [] })
      (record p { b_open = false; c_open = false }) (inr (with_end side w.read w.sent k))
      (close_both-Good p good)
after_write-Good side p w closing up (inr k) good = absurd (cc)
after_write-Good side p w at up k good = good

take_frame-Good :
    (side : Side) (p : Pair) (w : Way) (f : Frame)
    → w.sent ≡ map (passed side) w.read
    → Good p
    → Good (take_frame side p w f)
unfolding take_frame
take_frame-Good side p w f k good = by_test (f.method == eof_method)
  where
    by_test :
        (b : Bool)
        → Good (
            if b
            then with_way side (record w { at = telling_end }) p
            else with_way side (record w { at = passing f; read = w.read ++ f ∷ [] }) p)
    by_test true = with_way-Good side (record w { at = telling_end }) p k good
    by_test false =
        with_way-Good side (record w { at = passing f; read = w.read ++ f ∷ [] }) p
          (w.read, (refl, k)) good

way_step-Good :
    (side : Side) (p : Pair) (w : Way) (at : At) (event : Event)
    → Passes side w at (to_open side p)
    → Good p
    → Good (way_step side p w at event)
unfolding way_step
way_step-Good side p w reading (arrived f) k good = take_frame-Good side p w f k good
way_step-Good side p w reading stream_over k good =
    leave-Good side p w (inl (all_passed side w.read w.sent k)) good
way_step-Good side p w (passing f) write_threw k good =
    leave-Good side p w (inl (all_but_last side k.0 w.read w.sent f k.1.0 k.1.1)) good
way_step-Good side p w telling_end write_threw k good =
    leave-Good side p w (inl (all_passed side w.read w.sent k)) good
way_step-Good side p w closing write_threw (inl k) good =
    with_way-Good side (record w { at = failed }) p (inl k) good
way_step-Good side p w closing write_threw (inr k) good =
    with_way-Good side (record w { at = failed }) p (inr k.0) good
way_step-Good side p w at wrote k good = elim (Bool-cases (to_open side p)) [
  | inl up ↦ rw up (after_write-Good side p w at up k good)
  | inr down ↦ rw down good
]
way_step-Good side p w at event k good = good

run-Good : (es : List (Side × Event)) (p : Pair) → Good p → Good (run p es)
unfolding run step
run-Good [] p good = good
run-Good ((side, event) ∷ es) p good =
    run-Good es _ (way_step-Good side p (way side p) (way side p).at event (good side) good)

Passes-IsPassedOn :
    (side : Side) (w : Way) (at : At) (is_open : Bool)
    → Passes side w at is_open
    → IsPassedOn side w
Passes-IsPassedOn side w reading is_open k = inl (all_passed side w.read w.sent k)
Passes-IsPassedOn side w (passing f) is_open k =
    inl (all_but_last side k.0 w.read w.sent f k.1.0 k.1.1)
Passes-IsPassedOn side w telling_end is_open k = inl (all_passed side w.read w.sent k)
Passes-IsPassedOn side w closing is_open (inl k) = inl k
Passes-IsPassedOn side w closing is_open (inr k) = inr k.0
Passes-IsPassedOn side w finished is_open k = k
Passes-IsPassedOn side w failed is_open k = k

-- However the two coroutines of a pair interleave, each has written to its node the frames that it has
-- read from the other, all or all but the last one, in order and with NEW_SESSION of B as
-- FORWARD_SESSION, and behind them at most one EOF_.
pub frames_pass_in_order :
    (es : List (Side × Event)) (side : Side) → IsPassedOn side (way side (run new_pair es))
frames_pass_in_order es side =
    let p = run new_pair es in
    Passes-IsPassedOn side (way side p) (way side p).at (to_open side p)
      (run-Good es new_pair start side)
  where
    start : Good new_pair
    start from_b = refl
    start from_c = refl
