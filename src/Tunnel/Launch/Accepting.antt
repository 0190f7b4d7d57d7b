-- ===== src/Tunnel/Launch/Accepting.antt =====
-- The loop that accepts clients: what it starts, and when it ends.
use msg.Prelude.{
  ℕ, suc, ◌+◌, ◌^◌, ◌≤◌, ◌<◌, ◌++◌, length, arith, ◌≡◌, refl, sym, ap, subst, ◌∙◌, Bool, true,
  false, Option, none, some, List, [], ◌∷◌, All, All-append, Result, ok, throws, diverges,
}
use msg.Bytes.{ByteVector, u64}
use msg.Random.{Random}
use msg.Crypto.{Crypto}
use msg.Tunnel.Chain.{ProcessorChain}
use msg.Tunnel.Config.{Draws, build_processor_chain}
use msg.Tunnel.Config.Repeat.{SameOutcome, chain-SameOutcome}
use msg.Tunnel.Session.{SessionState, new_session}
use msg.Tunnel.Launch.{
  Loop, accepting, connecting, stopped, Acceptor, Event, accepted, accept_failed, connected,
  connect_failed, use_chain, take_client, advance, do_accept, new_acceptor,
}

module _ (R : Random) (C : Crypto) (draws : ℕ → ℕ → Draws C) (specs : List ByteVector)
    (backwards : Bool) where
  abbrev Clients : Type 0
  Clients = Acceptor R C draws specs backwards

  -- A chain that has been built with what is drawn for this connection.
  abbrev pub IsBuiltFor : ℕ → ProcessorChain R C → Type 0
  IsBuiltFor id c = build_processor_chain R C (draws id) specs backwards ≡ ok (some c)

  -- A session as `start_session` gets it.
  abbrev pub IsFresh : ℕ × SessionState R C → Type 0
  IsFresh x = (c : ProcessorChain R C) × (IsBuiltFor x.0 c × (x.1 ≡ new_session R C c))

  -- The connection that is being made has its chain already.
  abbrev Prepared : Loop R C draws specs backwards → Type 0
  Prepared (connecting id c) = IsBuiltFor id c
  Prepared accepting = Unit
  Prepared stopped = Unit

  abbrev IsSound : Clients → Type 0
  IsSound a = Prepared a.loop × All IsFresh a.sessions

  use_chain-IsSound :
      (a : Clients) (id : ℕ) (built : Result (Option (ProcessorChain R C)))
      → build_processor_chain R C (draws id) specs backwards ≡ built
      → All IsFresh a.sessions
      → IsSound (use_chain R C draws specs backwards a id built)
  unfolding use_chain
  use_chain-IsSound a id (ok (some c)) e all = (e, all)
  use_chain-IsSound a id (ok none) e all = (tt, all)
  use_chain-IsSound a id (throws x) e all = (tt, all)
  use_chain-IsSound a id diverges e all = (tt, all)

  advance-IsSound :
      (a : Clients) (l : Loop R C draws specs backwards) (e : Event R C draws specs backwards)
      → Prepared l
      → Prepared a.loop
      → All IsFresh a.sessions
      → IsSound (advance R C draws specs backwards a l e)
  unfolding advance take_client
  advance-IsSound a accepting (accepted true) p q all = use_chain-IsSound _ a.next_id _ refl all
  advance-IsSound a accepting (accepted false) p q all = (tt, all)
  advance-IsSound a accepting accept_failed p q all = (tt, all)
  advance-IsSound a (connecting id c) connected p q all =
      (tt, All-append IsFresh a.sessions ((id, new_session R C c) ∷ []) all ((c, (p, refl)), tt))
  advance-IsSound a (connecting id c) connect_failed p q all = (tt, all)
  advance-IsSound a l e p q all = (q, all)

  run-IsSound :
      (es : List (Event R C draws specs backwards)) (a : Clients)
      → IsSound a
      → IsSound (do_accept R C draws specs backwards a es)
  unfolding do_accept
  run-IsSound [] a sound = sound
  run-IsSound (e ∷ es) a sound =
      run-IsSound es _ (advance-IsSound a a.loop e sound.0 sound.0 sound.1)

  -- The numbers of the sessions rise from `lo`, and stay under `hi`.
  abbrev pub Climbs : ℕ → List (ℕ × SessionState R C) → ℕ → Type 0
  Climbs lo [] hi = lo ≤ hi
  Climbs lo (x ∷ xs) hi = (lo ≤ x.0) × Climbs (suc x.0) xs hi

  Climbs-mono :
      (lo : ℕ) (xs : List (ℕ × SessionState R C)) (hi wider : ℕ)
      → hi ≤ wider
      → Climbs lo xs hi
      → Climbs lo xs wider
  Climbs-mono lo [] hi wider h k = omega arith
  Climbs-mono lo (x ∷ xs) hi wider h k = (k.0, Climbs-mono (suc x.0) xs hi wider h k.1)

  Climbs-append :
      (lo : ℕ) (xs : List (ℕ × SessionState R C)) (id hi : ℕ) (s : SessionState R C)
      → Climbs lo xs id
      → id < hi
      → Climbs lo (xs ++ (id, s) ∷ []) hi
  Climbs-append lo [] id hi s k h = (k, omega arith)
  Climbs-append lo (x ∷ xs) id hi s k h = (k.0, Climbs-append (suc x.0) xs id hi s k.1 h)

  -- The numbers so far are under `next_id`, and that of the connection that is being made is the last.
  abbrev Counted : Loop R C draws specs backwards → List (ℕ × SessionState R C) → ℕ → Type 0
  Counted (connecting id c) xs next = Climbs 0 xs id × (id < next)
  Counted accepting xs next = Climbs 0 xs next
  Counted stopped xs next = Climbs 0 xs next

  Counted-Climbs :
      (l : Loop R C draws specs backwards) (xs : List (ℕ × SessionState R C)) (next : ℕ)
      → Counted l xs next
      → Climbs 0 xs next
  Counted-Climbs (connecting id c) xs next k = Climbs-mono 0 xs id next (omega (arith, k.1)) k.0
  Counted-Climbs accepting xs next k = k
  Counted-Climbs stopped xs next k = k

  use_chain-Counted :
      (a : Clients) (id : ℕ) (built : Result (Option (ProcessorChain R C)))
      → Climbs 0 a.sessions id
      → id < a.next_id
      → let b = use_chain R C draws specs backwards a id built in
        Counted b.loop b.sessions b.next_id × (b.next_id ≡ a.next_id)
  unfolding use_chain
  use_chain-Counted a id (ok (some c)) k h = ((k, h), refl)
  use_chain-Counted a id (ok none) k h =
      (Climbs-mono 0 a.sessions id a.next_id (omega arith) k, refl)
  use_chain-Counted a id (throws x) k h =
      (Climbs-mono 0 a.sessions id a.next_id (omega arith) k, refl)
  use_chain-Counted a id diverges k h =
      (Climbs-mono 0 a.sessions id a.next_id (omega arith) k, refl)

  -- While `next_id` has room, an event takes at most one number.
  advance-Counted :
      (a : Clients) (l : Loop R C draws specs backwards) (e : Event R C draws specs backwards)
      → a.loop ≡ l
      → Counted l a.sessions a.next_id
      → suc a.next_id < 2 ^ 64
      → let b = advance R C draws specs backwards a l e in
        Counted b.loop b.sessions b.next_id × (b.next_id ≤ suc a.next_id)
  unfolding advance take_client
  advance-Counted a accepting (accepted true) at k room =
      let taken : Acceptor R C draws specs backwards = record a { next_id = u64 (a.next_id + 1) } in
      let counted =
        use_chain-Counted taken a.next_id
          (build_processor_chain R C (draws a.next_id) specs backwards) k (omega (arith, room)) in
      (counted.0, omega (arith, counted.1, room))
  advance-Counted a accepting (accepted false) at k room = (
    Climbs-mono 0 a.sessions a.next_id (u64 (a.next_id + 1)) (omega (arith, room)) k,
    omega (arith, room),
  )
  advance-Counted a accepting accept_failed at k room = (k, omega arith)
  advance-Counted a (connecting id c) connected at k room =
      (Climbs-append 0 a.sessions id a.next_id _ k.0 k.1, omega arith)
  advance-Counted a (connecting id c) connect_failed at k room =
      (Counted-Climbs (connecting id c) a.sessions a.next_id k, omega arith)
  advance-Counted a l e at k room =
      (subst (λ m. Counted m a.sessions a.next_id) (sym at) k, omega arith)

  run-Counted :
      (es : List (Event R C draws specs backwards)) (a : Clients)
      → Counted a.loop a.sessions a.next_id
      → a.next_id + length es < 2 ^ 64
      → let b = do_accept R C draws specs backwards a es in Climbs 0 b.sessions b.next_id
  unfolding do_accept
  run-Counted [] a k room = Counted-Climbs a.loop a.sessions a.next_id k
  run-Counted (e ∷ es) a k room =
      let stepped = advance-Counted a a.loop e refl k (omega arith) in
      run-Counted es _ stepped.0 (omega (arith, stepped.1, room))

  -- Over fewer than 2 ^ 64 events: the numbers of the sessions that are started rise strictly, and each
  -- session has a chain that was built from the specifications of the command line with what is drawn
  -- for its own number, and is in its initial state.
  pub each_session_own_chain :
      (es : List (Event R C draws specs backwards))
      → length es < 2 ^ 64
      → let b = do_accept R C draws specs backwards (new_acceptor R C draws specs backwards) es in
        All IsFresh b.sessions × Climbs 0 b.sessions b.next_id
  each_session_own_chain es room = (
    (run-IsSound es (new_acceptor R C draws specs backwards) (tt, tt)).1,
    run-Counted es (new_acceptor R C draws specs backwards) (omega arith) (omega (arith, room)),
  )

  abbrev pub is_stopped : Loop R C draws specs backwards → Bool
  is_stopped stopped = true
  is_stopped _ = false

  -- A client that can be accepted and asked for its endpoint, or the outcome of a connection.
  abbrev pub IsOrdinary : Event R C draws specs backwards → Type 0
  IsOrdinary (accepted named) = named ≡ true
  IsOrdinary accept_failed = ⊥
  IsOrdinary connected = Unit
  IsOrdinary connect_failed = Unit

  use_chain_goes_on :
      (a : Clients) (id : ℕ) (built built' : Result (Option (ProcessorChain R C)))
      (x : ProcessorChain R C)
      → SameOutcome built built'
      → built ≡ ok (some x)
      → is_stopped (use_chain R C draws specs backwards a id built').loop ≡ false
  unfolding use_chain
  use_chain_goes_on a id (ok (some y)) (ok (some c)) x alike e = refl
  use_chain_goes_on a id (ok none) built' x alike e = absurd (cc)
  use_chain_goes_on a id (throws z) built' x alike e = absurd (cc)
  use_chain_goes_on a id diverges built' x alike e = absurd (cc)
  use_chain_goes_on a id (ok (some y)) (ok none) x alike e = absurd alike
  use_chain_goes_on a id (ok (some y)) (throws z) x alike e = absurd alike
  use_chain_goes_on a id (ok (some y)) diverges x alike e = absurd alike

  module _ (first : ℕ → Draws C) (checked : ProcessorChain R C)
      (built : build_processor_chain R C first specs backwards ≡ ok (some checked)) where
    advance_goes_on :
        (a : Clients) (l : Loop R C draws specs backwards) (e : Event R C draws specs backwards)
        → a.loop ≡ l
        → IsOrdinary e
        → is_stopped l ≡ false
        → is_stopped (advance R C draws specs backwards a l e).loop ≡ false
    unfolding advance take_client
    advance_goes_on a accepting (accepted true) at usual on =
        use_chain_goes_on _ a.next_id _ _ checked
          (chain-SameOutcome R C first (draws a.next_id) backwards specs) built
    advance_goes_on a accepting (accepted false) at usual on = absurd (cc)
    advance_goes_on a accepting accept_failed at usual on = absurd usual
    advance_goes_on a (connecting id c) connected at usual on = refl
    advance_goes_on a (connecting id c) connect_failed at usual on = refl
    advance_goes_on a l e at usual on = ap is_stopped at ∙ on

    run_goes_on :
        (es : List (Event R C draws specs backwards)) (a : Clients)
        → All IsOrdinary es
        → is_stopped a.loop ≡ false
        → is_stopped (do_accept R C draws specs backwards a es).loop ≡ false
    unfolding do_accept
    run_goes_on [] a usual on = on
    run_goes_on (e ∷ es) a usual on =
        run_goes_on es _ usual.1 (advance_goes_on a a.loop e refl usual.0 on)

  -- Once the specifications have passed the check of `run_tunnel`, the loop goes on for ever, however
  -- many connections to the remote address fail, as long as clients can be accepted and asked for
  -- their endpoints.
  pub accept_loop_goes_on :
      (first : ℕ → Draws C) (checked : ProcessorChain R C)
      (es : List (Event R C draws specs backwards))
      → build_processor_chain R C first specs backwards ≡ ok (some checked)
      → All IsOrdinary es
      → is_stopped
          (do_accept R C draws specs backwards (new_acceptor R C draws specs backwards) es).loop
        ≡ false
  accept_loop_goes_on first checked es built usual =
      run_goes_on first checked built es (new_acceptor R C draws specs backwards) usual refl
