-- ===== src/Relay/Pair/Shutting.antt =====
-- The end of a pair.
use msg.Prelude.{
  ◌≡◌, refl, ap, ◌⊎◌, inl, inr, Bool, true, false, List, [], ◌∷◌, ◌++◌, ◌==◌, if◌then◌else◌,
}
use msg.Relay.Frame.{Frame, eof_method}
use msg.Relay.Pair.{
  Side, from_b, from_c, At, reading, passing, telling_end, closing, finished, failed, Way, Pair,
  way, with_way, to_open, close_to, leave, take_frame, Event, arrived, stream_over, wrote,
  write_threw, after_write, way_step, step, run, new_pair,
}

-- The coroutine that found the pair alive has its last write before it, or it has thrown.
abbrev pub is_shutting : At → Bool
is_shutting closing = true
is_shutting failed = true
is_shutting _ = false

-- One of the two is shutting the pair, or both sockets are closed.
abbrev pub IsShut : Pair → Type 0
IsShut p =
    (is_shutting p.way_b.at ≡ true)
    ⊎ ((is_shutting p.way_c.at ≡ true) ⊎ ((p.b_open ≡ false) × (p.c_open ≡ false)))

abbrev Ending : Pair → Type 0
Ending p = (p.dead ≡ false) ⊎ IsShut p

-- A way that was not shutting the pair changes.
with_way-Ending :
    (side : Side) (p : Pair) (w : Way)
    → is_shutting (way side p).at ≡ false
    → Ending p
    → Ending (with_way side w p)
with_way-Ending from_b p w off (inl alive) = inl alive
with_way-Ending from_b p w off (inr (inl s)) = absurd (cc)
with_way-Ending from_b p w off (inr (inr k)) = inr (inr k)
with_way-Ending from_c p w off (inl alive) = inl alive
with_way-Ending from_c p w off (inr (inl s)) = inr (inl s)
with_way-Ending from_c p w off (inr (inr (inl s))) = absurd (cc)
with_way-Ending from_c p w off (inr (inr (inr k))) = inr (inr (inr k))

-- A way that is shutting the pair from now on.
shuts-Ending :
    (side : Side) (p : Pair) (w : Way) → is_shutting w.at ≡ true → Ending (with_way side w p)
shuts-Ending from_b p w on = inr (inl on)
shuts-Ending from_c p w on = inr (inr (inl on))

leave-Ending :
    (side : Side) (p : Pair) (w : Way)
    → is_shutting (way side p).at ≡ false
    → Ending p
    → Ending (leave side p w)
unfolding leave
leave-Ending side p w off e = by_flag p.dead
  where
    by_flag :
        (b : Bool)
        → Ending (
            if b
            then with_way side (record w { at = finished }) p
            else with_way side (record w { at = closing }) (record p { dead = true }))
    by_flag true = with_way-Ending side p _ off e
    by_flag false = shuts-Ending side (record p { dead = true }) _ refl

close_to-Ending :
    (side : Side) (p : Pair)
    → is_shutting (way side p).at ≡ false
    → Ending p
    → (is_shutting (way side (close_to side p)).at ≡ false) × Ending (close_to side p)
close_to-Ending from_b p off (inl alive) = (off, inl alive)
close_to-Ending from_b p off (inr (inl s)) = (off, inr (inl s))
close_to-Ending from_b p off (inr (inr (inl s))) = (off, inr (inr (inl s)))
close_to-Ending from_b p off (inr (inr (inr k))) = (off, inr (inr (inr (k.0, refl))))
close_to-Ending from_c p off (inl alive) = (off, inl alive)
close_to-Ending from_c p off (inr (inl s)) = (off, inr (inl s))
close_to-Ending from_c p off (inr (inr (inl s))) = (off, inr (inr (inl s)))
close_to-Ending from_c p off (inr (inr (inr k))) = (off, inr (inr (inr (refl, k.1))))

after_write-Ending :
    (side : Side) (p : Pair) (w : Way) (at : At)
    → (way side p).at ≡ at
    → Ending p
    → Ending (after_write side p w at)
unfolding after_write
after_write-Ending side p w (passing f) h e = with_way-Ending side p _ (ap is_shutting h) e
after_write-Ending side p w telling_end h e =
    let closed = close_to-Ending side p (ap is_shutting h) e in
    leave-Ending side (close_to side p) _ closed.0 closed.1
after_write-Ending from_b p w closing h e = inr (inr (inr (refl, refl)))
after_write-Ending from_c p w closing h e = inr (inr (inr (refl, refl)))
after_write-Ending side p w at h e = e

take_frame-Ending :
    (side : Side) (p : Pair) (w : Way) (f : Frame)
    → is_shutting (way side p).at ≡ false
    → Ending p
    → Ending (take_frame side p w f)
unfolding take_frame
take_frame-Ending side p w f off e = by_test (f.method == eof_method)
  where
    by_test :
        (b : Bool)
        → Ending (
            if b
            then with_way side (record w { at = telling_end }) p
            else with_way side (record w { at = passing f; read = w.read ++ f ∷ [] }) p)
    by_test true = with_way-Ending side p _ off e
    by_test false = with_way-Ending side p _ off e

guarded :
    (side : Side) (p : Pair) (w : Way) (at : At) (is_open : Bool)
    → (way side p).at ≡ at
    → Ending p
    → Ending (if is_open then after_write side p w at else p)
guarded side p w at true h e = after_write-Ending side p w at h e
guarded side p w at false h e = e

way_step-Ending :
    (side : Side) (p : Pair) (w : Way) (at : At) (event : Event)
    → (way side p).at ≡ at
    → Ending p
    → Ending (way_step side p w at event)
unfolding way_step
way_step-Ending side p w reading (arrived f) h e = take_frame-Ending side p w f (ap is_shutting h) e
way_step-Ending side p w reading stream_over h e = leave-Ending side p w (ap is_shutting h) e
way_step-Ending side p w (passing f) write_threw h e = leave-Ending side p w (ap is_shutting h) e
way_step-Ending side p w telling_end write_threw h e = leave-Ending side p w (ap is_shutting h) e
way_step-Ending side p w closing write_threw h e =
    shuts-Ending side p (record w { at = failed }) refl
way_step-Ending side p w at wrote h e = guarded side p w at (to_open side p) h e
way_step-Ending side p w at event h e = e

run-Ending : (es : List (Side × Event)) (p : Pair) → Ending p → Ending (run p es)
unfolding run step
run-Ending [] p e = e
run-Ending ((side, event) ∷ es) p e =
    run-Ending es _ (way_step-Ending side p (way side p) (way side p).at event refl e)

-- However the two coroutines of a pair interleave: once one of them has found the pair dead or marked
-- it so, and neither is in its last write or has thrown from it, both sockets are closed.
pub dead_pairs_are_shut :
    (es : List (Side × Event))
    → (run new_pair es).dead ≡ true
    → is_shutting (run new_pair es).way_b.at ≡ false
    → is_shutting (run new_pair es).way_c.at ≡ false
    → ((run new_pair es).b_open ≡ false) × ((run new_pair es).c_open ≡ false)
dead_pairs_are_shut es dead off_b off_c = by_end (run-Ending es new_pair (inl refl))
  where
    by_end :
        Ending (run new_pair es)
        → ((run new_pair es).b_open ≡ false) × ((run new_pair es).c_open ≡ false)
    by_end (inl alive) = absurd (cc)
    by_end (inr (inl s)) = absurd (cc)
    by_end (inr (inr (inl s))) = absurd (cc)
    by_end (inr (inr (inr k))) = k
