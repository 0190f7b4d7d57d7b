-- ===== src/Relay/Frame/RoundTrip.antt =====
-- Frames that are written are read back.
use msg.Prelude.{
  ℕ, ◌+◌, ◌/◌, ◌^◌, true, false, ap₂, zero, suc, ◌≤◌, ◌<◌, ◌≡◌, refl, ◌∙◌, inl, inr, [], ◌∷◌, ◌++◌,
  length, take, drop, length-append, length-take, ◌⊎◌, take-append, drop-append, some, ok, throws,
  none, stream_ended, ltb, lt→ltb, le→ltb, arith,
}
use msg.Bytes.{ByteVector, u32, u8}
use msg.Bytes.BigEndian.{word_bytes, word_at, word_at-word_bytes}
use msg.Relay.Frame.{Method, write_frame, build_frame_bytes, frame_of, read_frame}

-- The two ways to make a frame give the same bytes.
pub build_frame_bytes-write_frame :
    (method : Method) (bytes : ByteVector)
    → build_frame_bytes method bytes ≡ write_frame method bytes
unfolding build_frame_bytes write_frame word_bytes
build_frame_bytes-write_frame method [] = refl
build_frame_bytes-write_frame method (b ∷ bs) =
    rw (let e : ltb 0 (length (b ∷ bs)) ≡ true = lt→ltb 0 (length (b ∷ bs)) (omega arith) in e)

-- With a header that says `k`, and `k` bytes or more behind it.
pub read_whole :
    (a b c d k : ℕ) (payload : ByteVector)
    → word_at a b c d ≡ k
    → 1 ≤ k
    → k ≤ length payload
    → read_frame (a ∷ b ∷ c ∷ d ∷ payload) ≡ ok (some (frame_of (take k payload), drop k payload))
unfolding read_frame
read_whole a b c d k payload e pos enough =
    let header : ltb (length (a ∷ b ∷ c ∷ d ∷ payload)) 4 ≡ false =
      le→ltb (length (a ∷ b ∷ c ∷ d ∷ payload)) 4 (omega arith) in
    rw (header, e, le→ltb k 1 pos, le→ltb (length payload) k enough)

-- With a header that says more than there is.
read_short :
    (a b c d k : ℕ) (payload : ByteVector)
    → word_at a b c d ≡ k
    → length payload < k
    → read_frame (a ∷ b ∷ c ∷ d ∷ payload) ≡ throws stream_ended
unfolding read_frame
read_short a b c d k payload e short =
    let header : ltb (length (a ∷ b ∷ c ∷ d ∷ payload)) 4 ≡ false =
      le→ltb (length (a ∷ b ∷ c ∷ d ∷ payload)) 4 (omega arith) in
    rw (header, e, le→ltb k 1 (omega arith), lt→ltb (length payload) k short)

-- The header of a frame that fits says its length.
pub header_length :
    (body : ByteVector)
    → 1 + length body < 2 ^ 32
    → let n = u32 (1 + length body) in
      word_at (u8 (n / 2 ^ 24)) (u8 (n / 2 ^ 16)) (u8 (n / 2 ^ 8)) (u8 n) ≡ 1 + length body
header_length body h = word_at-word_bytes (u32 (1 + length body)) (omega arith) ∙ omega arith

-- A frame whose length fits into 32 bits is read back, whatever follows it on the connection.
pub read_frame-write_frame :
    (method : Method) (body rest : ByteVector)
    → 1 + length body < 2 ^ 32
    → read_frame (write_frame method body ++ rest)
      ≡ ok (some (record { method = method; body = body }, rest))
unfolding write_frame word_bytes
read_frame-write_frame method body rest h =
    let n = u32 (1 + length body) in
    let k = 1 + length body in
    let payload = method ∷ (body ++ rest) in
    let size : length (method ∷ body) ≡ k = omega arith in
    let taken : take k payload ≡ method ∷ body = take-append k (method ∷ body) rest size in
    let left : drop k payload ≡ rest = drop-append k (method ∷ body) rest size in
    read_whole (u8 (n / 2 ^ 24)) (u8 (n / 2 ^ 16)) (u8 (n / 2 ^ 8)) (u8 n) k payload
      (header_length body h) (omega arith) (omega (arith, length-append body rest))
    ∙ ap₂ (λ p q. ok (some (frame_of p, q))) taken left

-- Less than a header.
pub read_header_cut : (input : ByteVector) → length input < 4 → read_frame input ≡ ok none
unfolding read_frame
read_header_cut input short = rw (lt→ltb (length input) 4 short)

-- A connection that ends inside a frame whose length fits into 32 bits gives no frame: inside the
-- header it reads as the end of the connection, and behind the header it is an exception.
pub read_frame_cut :
    (method : Method) (body : ByteVector) (n : ℕ)
    → 1 + length body < 2 ^ 32
    → n < length (write_frame method body)
    → ((n < 4) × (read_frame (take n (write_frame method body)) ≡ ok none))
      ⊎ ((4 ≤ n) × (read_frame (take n (write_frame method body)) ≡ throws stream_ended))
unfolding write_frame word_bytes
read_frame_cut method body zero h cut = inl (omega arith, read_header_cut _ (omega arith))
read_frame_cut method body (suc zero) h cut = inl (omega arith, read_header_cut _ (omega arith))
read_frame_cut method body (suc (suc zero)) h cut =
    inl (omega arith, read_header_cut _ (omega arith))
read_frame_cut method body (suc (suc (suc zero))) h cut =
    inl (omega arith, read_header_cut _ (omega arith))
read_frame_cut method body (suc (suc (suc (suc n)))) h cut =
    let len = u32 (1 + length body) in
    let short : length (take n (method ∷ body)) < 1 + length body =
      omega (arith, length-take n (method ∷ body)) in
    inr (
      omega arith,
      read_short (u8 (len / 2 ^ 24)) (u8 (len / 2 ^ 16)) (u8 (len / 2 ^ 8)) (u8 len)
          (1 + length body) (take n (method ∷ body)) (header_length body h) short,
    )
