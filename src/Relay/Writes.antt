-- ===== src/Relay/Writes.antt =====
-- `aconn_write` of relay.cpp: the coroutines of a node write their frames to one connection. The strand
-- runs their handlers one at a time; `async_write` is a row of writes of some bytes each, and
-- between these another coroutine's `async_write` may go on.
use msg.Prelude.{
  ℕ, suc, ◌+◌, ◌/◌, ◌<◌, ◌^◌, ◌≡◌, refl, sym, ap, subst, ◌∙◌, some, List, [], ◌∷◌, ◌++◌,
  append_assoc, length, length-append, map, get_or, set, take, drop, take-append-drop, ok, arith,
}
use msg.Bytes.{ByteVector, u32, u8}
use msg.Bytes.BigEndian.{word_bytes, word_at}
use msg.Relay.Frame.{Method, Frame, build_frame_bytes, write_frame, frame_of, read_frame}
use msg.Relay.Frame.RoundTrip.{build_frame_bytes-write_frame, read_whole, header_length}

-- `in_flight` holds what each call of `async_write` has left; `wire` is what has been written.
pub record Connection : Type 0 where
  pub in_flight : List ByteVector
  pub wire : ByteVector

-- `aconn_write`, up to its `async_write`
unfoldable pub aconn_write : Connection → Method → ByteVector → Connection
aconn_write c method body = record c {
  in_flight = c.in_flight ++ build_frame_bytes method body ∷ [];
}

-- One write of some bytes, for a call of `async_write`.
unfoldable pub write_some : Connection → ℕ → ℕ → Connection
write_some c call count =
    let left = get_or c.in_flight call [] in
    record { in_flight = set c.in_flight call (drop count left); wire = c.wire ++ take count left }

unfoldable pub write_all : Connection → List (ℕ × ℕ) → Connection
write_all c [] = c
write_all c ((call, count) ∷ rest) = write_all (write_some c call count) rest

-- The writes of a call, by their counts.
abbrev pub of_call : ℕ → List ℕ → List (ℕ × ℕ)
of_call call counts = map (λ n. (call, n)) counts

lone_goes_on :
    (counts : List ℕ) (wire left : ByteVector)
    → let c = write_all (record { in_flight = left ∷ []; wire = wire }) (of_call 0 counts) in
      c.wire ++ get_or c.in_flight 0 [] ≡ wire ++ left
unfolding write_all write_some
lone_goes_on [] wire left = refl
lone_goes_on (count ∷ counts) wire left =
    lone_goes_on counts (wire ++ take count left) (drop count left)
    ∙ append_assoc wire (take count left) (drop count left)
    ∙ ap (◌++◌ wire) (take-append-drop count left)

-- A call that is alone on the connection writes its frame, however it is cut: what has been written
-- since, followed by what is left, is the frame.
pub lone_write_is_whole :
    (wire body : ByteVector) (method : Method) (counts : List ℕ)
    → let c =
        write_all
          (aconn_write (record { in_flight = []; wire = wire }) method body)
          (of_call 0 counts) in
      c.wire ++ get_or c.in_flight 0 [] ≡ wire ++ write_frame method body
unfolding aconn_write
lone_write_is_whole wire body method counts =
    lone_goes_on counts wire (build_frame_bytes method body)
    ∙ ap (◌++◌ wire) (build_frame_bytes-write_frame method body)

take_all : {A : Type 0} (xs : List A) → take (length xs) xs ≡ xs
take_all [] = refl
take_all (x ∷ xs) = ap (◌∷◌ x) (take_all xs)

-- Two calls, the first of which has written its header when the second goes first.
abbrev pub both : ByteVector → ByteVector → Connection
both f g = record { in_flight = f ∷ g ∷ []; wire = [] }

abbrev pub meeting : ByteVector → ByteVector → List (ℕ × ℕ)
meeting f g = (0, 4) ∷ (1, length g) ∷ (0, length (drop 4 f)) ∷ []

mixed : (f g : ByteVector) → (write_all (both f g) (meeting f g)).wire ≡ take 4 f ++ (g ++ drop 4 f)
unfolding write_all write_some
mixed f g = rw (take_all g, take_all (drop 4 f)) (append_assoc (take 4 f) g (drop 4 f))

-- A frame whose header stands before bytes that begin with 0.
wrong_method :
    (a b c d k : ℕ) (first : ByteVector) (last : ByteVector)
    → word_at a b c d ≡ suc k
    → length last ≡ suc k
    → (frame : Frame) × (rest : ByteVector) × (read_frame (a ∷ b ∷ c ∷ d ∷ (0 ∷ first) ++ last)
        ≡ ok (some (frame, rest)))
      × (frame.method ≡ 0)
wrong_method a b c d k first last header size = (
  frame_of (take (suc k) ((0 ∷ first) ++ last)),
  drop (suc k) ((0 ∷ first) ++ last),
  read_whole a b c d (suc k) ((0 ∷ first) ++ last) header (omega arith)
      (omega (arith, length-append first last)),
  refl,
)

abbrev WrongMethod : ByteVector → Type 0
WrongMethod wire =
    (frame : Frame) × (rest : ByteVector) × (read_frame wire ≡ ok (some (frame, rest)))
    × (frame.method ≡ 0)

mixed_frames :
    (m₁ m₂ : Method) (b₁ b₂ : ByteVector)
    → 1 + length b₁ < 2 ^ 32
    → 1 + length b₂ < 2 ^ 24
    → WrongMethod (take 4 (write_frame m₁ b₁) ++ (write_frame m₂ b₂ ++ drop 4 (write_frame m₁ b₁)))
unfolding write_frame word_bytes
mixed_frames m₁ m₂ b₁ b₂ small₁ small₂ =
    let n = u32 (1 + length b₁) in
    let k = u32 (1 + length b₂) in
    let first : u8 (u32 (1 + length b₂) / 2 ^ 24) ≡ 0 = omega arith in
    rw first (
      wrong_method (u8 (n / 2 ^ 24)) (u8 (n / 2 ^ 16)) (u8 (n / 2 ^ 8)) (u8 n) (length b₁)
        (u8 (k / 2 ^ 16) ∷ u8 (k / 2 ^ 8) ∷ u8 k ∷ m₂ ∷ b₂) (m₁ ∷ b₁)
        (header_length b₁ small₁ ∙ omega arith) refl)

-- Two frames that are sent at once, the second shorter than 2^24 bytes: the writes of the one may come
-- between those of the other, and the server then reads a frame with method 0, which neither is.
pub concurrent_writes_mix :
    (m₁ m₂ : Method) (b₁ b₂ : ByteVector)
    → 1 + length b₁ < 2 ^ 32
    → 1 + length b₂ < 2 ^ 24
    → let c = aconn_write (aconn_write (record { in_flight = []; wire = [] }) m₁ b₁) m₂ b₂ in
      (schedule : List (ℕ × ℕ)) × (frame : Frame) × (rest : ByteVector) × (read_frame
          (write_all c schedule).wire
        ≡ ok (some (frame, rest)))
      × (frame.method ≡ 0)
unfolding aconn_write
concurrent_writes_mix m₁ m₂ b₁ b₂ small₁ small₂ =
    let f = write_frame m₁ b₁ in
    let g = write_frame m₂ b₂ in
    let (frame, rest, read, zeroth) =
      subst WrongMethod (sym (mixed f g)) (mixed_frames m₁ m₂ b₁ b₂ small₁ small₂) in
    rw (build_frame_bytes-write_frame m₁ b₁, build_frame_bytes-write_frame m₂ b₂)
      (meeting f g, frame, rest, read, zeroth)
