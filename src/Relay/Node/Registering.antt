-- ===== src/Relay/Node/Registering.antt =====
-- A node and the server when the node registers.
use msg.Prelude.{
  ℕ, suc, ◌+◌, ◌<◌, ◌^◌, ◌≡◌, refl, ap, ◌∙◌, inl, inr, Bool, true, false, not, ◌&&◌, Option, none,
  some, some_inj, [], ◌∷◌, ◌++◌, length, length-append, get_or, take, drop, take-append, ltb,
  le→ltb, ◌==◌, if◌then◌else◌, Bool-cases, Result, ok, throws, stream_ended, ◌>>=◌, ok_injective,
  arith,
}
use mathlib.Core.Option
use msg.Bytes.{Byte, ByteVector}
use msg.Bytes.BigEndian.{word_at}
use msg.Relay.Frame.{
  Method, Frame, register_method, ready_method, write_frame, frame_of, read_frame,
}
use msg.Relay.Frame.RoundTrip.{build_frame_bytes-write_frame, read_frame-write_frame}
use msg.Relay.Server.{Role, visitor, provider, parse_register}
use msg.Relay.Node.{Surroundings, registration, read_reply, follow, run_node}
use msg.Tunnel.Text.{find}

-- Where `read_frame` reads a frame, the node reads the same bytes, and takes READY alone for READY.
pub read_reply-read_frame :
    (reply rest : ByteVector) (f : Frame)
    → read_frame reply ≡ ok (some (f, rest))
    → read_reply reply ≡ ok (f.method == ready_method, rest)
unfolding read_frame read_reply
read_reply-read_frame reply rest f e =
    let len = word_at (get_or reply 0 0) (get_or reply 1 0) (get_or reply 2 0) (get_or reply 3 0) in
    by_tests (ltb (length reply) 4) (ltb len 1) (ltb (length (drop 4 reply)) len) e
  where
    by_tests :
        (headless empty short : Bool)
        → ◌≡◌ {A = Result (Option (Frame × ByteVector))}
            (let len =
                word_at
                  (get_or reply 0 0)
                  (get_or reply 1 0)
                  (get_or reply 2 0)
                  (get_or reply 3 0) in
              if headless
              then ok none
              else if empty
              then ok none
              else if short
              then throws stream_ended
              else ok (some (frame_of (take len (drop 4 reply)), drop len (drop 4 reply))))
            (ok (some (f, rest)))
        → ◌≡◌ {A = Result (Bool × ByteVector)}
            (let len =
                word_at
                  (get_or reply 0 0)
                  (get_or reply 1 0)
                  (get_or reply 2 0)
                  (get_or reply 3 0) in
              if headless
              then throws stream_ended
              else if short
              then throws stream_ended
              else ok (
                not empty && get_or (take len (drop 4 reply)) 0 0 == ready_method,
                drop len (drop 4 reply),
              ))
            (ok (f.method == ready_method, rest))
    by_tests true empty short e = absurd (cc)
    by_tests false true short e = absurd (cc)
    by_tests false false true e = absurd (cc)
    by_tests false false false e =
        ap (λ x. ok (x.0.method == ready_method, x.1)) (some_inj (ok_injective e))

-- A node whose server can be reached.
abbrev pub reached : ByteVector → Surroundings
reached reply = record { is_address = true; connects = true; writes = true; reply = reply }

-- 'B' or 'C', as the command line gives it.
abbrev pub letter : Role → Byte
letter visitor = b'B'
letter provider = b'C'

run_node-reached :
    (id reply : ByteVector) (role : Role)
    → run_node (reached reply) id (letter role)
      ≡ (read_reply reply >>= λ r. ok (follow (registration id (letter role)) (letter role) r))
unfolding run_node
run_node-reached id reply visitor = refl
run_node-reached id reply provider = refl

-- The node goes on when the server's frame is READY and returns when it is any other; the bytes
-- behind the frame are left to the role's coroutine.
pub node_follows_server :
    (id body rest : ByteVector) (role : Role) (m : Method)
    → 1 + length body < 2 ^ 32
    → run_node (reached (write_frame m body ++ rest)) id (letter role)
      ≡ ok (follow (registration id (letter role)) (letter role) (m == ready_method, rest))
node_follows_server id body rest role m small =
    run_node-reached id (write_frame m body ++ rest) role
    ∙ ap (λ x. x >>= λ r. ok (follow (registration id (letter role)) (letter role) r))
        (read_reply-read_frame (write_frame m body ++ rest) rest _
          (read_frame-write_frame m body rest small))

-- The first space is the one behind a text that holds none.
find-append :
    (front back : ByteVector)
    → find b' ' front ≡ none
    → find b' ' (front ++ b' ' ∷ back) ≡ some (length front)
unfolding find
find-append [] back plain = refl
find-append (x ∷ front) back plain = elim (Bool-cases (x == 32)) [
  | inl space ↦ absurd (cc (rw space at plain))
  | inr other ↦
      let later : Option.map suc (find 32 front) ≡ none = rw other at plain in
      rw other (ap (Option.map suc) (find-append front back (unmapped (find 32 front) later)))
]
  where
    unmapped : (o : Option ℕ) → Option.map suc o ≡ none → o ≡ none
    unmapped none e = refl
    unmapped (some n) e = absurd (cc)

letter_found : (id : ByteVector) (c : Byte) → get_or (id ++ 32 ∷ c ∷ []) (length id + 1) 0 ≡ c
letter_found [] c = refl
letter_found (x ∷ id) c =
    ap (λ (n : ℕ). get_or (x ∷ id ++ 32 ∷ c ∷ []) n 0)
      (let e : suc (length id) + 1 ≡ suc (length id + 1) = omega arith in e)
    ∙ letter_found id c

parse_register-registration :
    (id : ByteVector) (role : Role)
    → find b' ' id ≡ none
    → parse_register (record { method = register_method; body = id ++ 32 ∷ letter role ∷ [] })
      ≡ some (id, role)
unfolding parse_register
parse_register-registration id role plain =
    let body = id ++ 32 ∷ letter role ∷ [] in
    let long : ltb (length body) (length id + 2) ≡ false =
      le→ltb (length body) (length id + 2)
        (omega (arith, length-append id (32 ∷ letter role ∷ []))) in
    rw
      (
        find-append id (letter role ∷ []) plain,
        long,
        letter_found id (letter role),
        take-append (length id) id (32 ∷ letter role ∷ []) refl,
      )
      (by_role role)
  where
    by_role :
        (r : Role)
        → ◌≡◌ {A = Option (ByteVector × Role)}
            (elim (if letter r == 66
              then some visitor
              else if letter r == 67
              then some provider
              else none) [ none ↦ none | some role' ↦ some (id, role') ])
            (some (id, r))
    by_role visitor = refl
    by_role provider = refl

-- The server reads the REGISTER frame of a node, whatever follows it, and takes the identifier and the
-- role from it that the node was started with, when the identifier holds no space.
pub server_reads_registration :
    (id rest : ByteVector) (role : Role)
    → find b' ' id ≡ none
    → 3 + length id < 2 ^ 32
    → (f : Frame) × (read_frame (registration id (letter role) ++ rest) ≡ ok (some (f, rest)))
      × (parse_register f ≡ some (id, role))
unfolding registration
server_reads_registration id rest role plain small =
    let body = id ++ 32 ∷ letter role ∷ [] in
    (
      record { method = register_method; body = body },
      ap (λ b. read_frame (b ++ rest)) (build_frame_bytes-write_frame register_method body)
          ∙ read_frame-write_frame register_method body rest
              (omega (arith, length-append id (32 ∷ letter role ∷ []))),
      parse_register-registration id role plain,
    )
