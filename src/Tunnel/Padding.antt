-- ===== src/Tunnel/Padding.antt =====
-- `PaddingProcessor` of padding.cpp: frames of a length header, a payload and random padding.
pub mod Header
pub mod Frames
pub mod Unframe
pub mod Linked
use msg.Prelude.{
  ℕ, zero, suc, ◌+◌, ◌-◌, ◌^◌, min, Bool, true, false, ◌||◌, bit_xor, List, [], ◌∷◌, ◌++◌, length,
  get_or, take, drop, ltb, if◌then◌else◌, Result, ok, throws, diverges, ◌>>=◌,
  invalid_padding_frame_header, invalid_padding_frame_length,
}
use msg.Bytes.{ByteVector, u8, u32, u64}
use msg.Bytes.BigEndian.{word_bytes, word_at}
use msg.Random.{Random}
use msg.Tunnel.Stream.{DataBufferList}

-- `write_u32`
unfoldable pub write_u32 : ByteVector → ℕ → ByteVector
write_u32 out v = out ++ word_bytes v

-- `read_u32`, of the bytes from position `p`
unfoldable pub read_u32 : ByteVector → ℕ → ℕ
read_u32 acc p =
    word_at (get_or acc p 0) (get_or acc (p + 1) 0) (get_or acc (p + 2) 0) (get_or acc (p + 3) 0)

-- The part of a range insert, `[pos, pos + len)`.
abbrev pub slice : ByteVector → ℕ → ℕ → ByteVector
slice input pos len = take len (drop pos input)

-- What `apply_unpack` leaves: the buffers pushed, and `acc` after the erase.
pub record Unpacked : Type 0 where
  pub buffers : DataBufferList
  pub acc : ByteVector

-- One test of a frame header: `payload_len > chunk_size_ || pad_len > pad_max_`
abbrev pub header_refused : ℕ → ℕ → ℕ → ℕ → Bool
header_refused chunk_size pad_max payload_len pad_len =
    ltb chunk_size payload_len || ltb pad_max pad_len

-- `HEADER_LEN + payload_len + pad_len` in 64 bits
abbrev pub frame_len : ℕ → ℕ → ℕ
frame_len payload_len pad_len = u64 (u64 (8 + payload_len) + pad_len)

-- `std::numeric_limits<size_t>::max()`, where `size_t` has 64 bits
abbrev pub size_max : ℕ
size_max = 2 ^ 64 - 1

-- The loop of `apply_unpack` at `pos`: the buffers that it pushes, and `pos` where it breaks off.
unfoldable pub unpack_loop : ℕ → ℕ → ℕ → ByteVector → ℕ → Result (DataBufferList × ℕ)
unpack_loop chunk_size pad_max zero acc pos = diverges
unpack_loop chunk_size pad_max (suc fuel) acc pos =
    let payload_len = read_u32 acc pos in
    let pad_len = read_u32 acc (pos + 4) in
    let len = frame_len payload_len pad_len in
    let next = (do
      (out, end) ← unpack_loop chunk_size pad_max fuel acc (pos + len)
      ok (slice acc (pos + 8) payload_len ∷ out, end)) in
    if ltb (length acc - pos) 8
    then ok ([], pos)
    else if header_refused chunk_size pad_max payload_len pad_len
    then throws invalid_padding_frame_header
    else if ltb size_max len
    then throws invalid_padding_frame_length
    else if ltb (length acc - pos) len
    then ok ([], pos)
    else next

-- `apply_unpack`. A frame has eight bytes or more, so one round for each byte and one more do.
unfoldable pub apply_unpack : ℕ → ℕ → ByteVector → ByteVector → Result Unpacked
apply_unpack chunk_size pad_max input acc =
    let acc' = acc ++ input in
    do
      (out, pos) ← unpack_loop chunk_size pad_max (length acc' + 1) acc' 0
      ok (record { buffers = out; acc = drop pos acc' })

module _ (R : Random) where
  open R use {Engine, engine, draw}

  -- The padding bytes: `byte_dist(rng)` for each.
  unfoldable pub pad_bytes : ℕ → Engine → ByteVector × Engine
  pad_bytes zero rng = ([], rng)
  pad_bytes (suc n) rng =
      let (b, rng') = draw 255 rng in let (bs, rng'') = pad_bytes n rng' in (u8 b ∷ bs, rng'')

  -- The loop of `apply_pack` at `pos`.
  unfoldable pub pack_loop : ℕ → ℕ → ℕ → ByteVector → ℕ → Engine → Result (DataBufferList × Engine)
  pack_loop chunk_size pad_max zero input pos rng =
      if ltb pos (length input) then diverges else ok ([], rng)
  pack_loop chunk_size pad_max (suc fuel) input pos rng =
      let payload_len = min chunk_size (length input - pos) in
      let (pad_len, rng') = draw (u32 pad_max) rng in
      let (pad, rng'') = pad_bytes pad_len rng' in
      let header = write_u32 (write_u32 [] (u32 payload_len)) pad_len in
      let frame = (header ++ slice input pos payload_len) ++ pad in
      let next = (do
        (out, end) ← pack_loop chunk_size pad_max fuel input (pos + payload_len) rng''
        ok (frame ∷ out, end)) in
      if ltb pos (length input) then next else ok ([], rng)

  pub record Padding : Type 0 where
    pub chunk_size : ℕ
    pub pad_max : ℕ
    pub pack_rng : Engine
    pub unpack_buffer : ByteVector

  -- the constructor
  unfoldable pub new_padding : ℕ → ℕ → ℕ → Bool → Padding
  new_padding chunk_size pad_max seed reverse = record {
    chunk_size = chunk_size;
    pad_max = pad_max;
    pack_rng = engine (if reverse then bit_xor seed 0x9e3779b97f4a7c15 else seed);
    unpack_buffer = [];
  }

  -- `pack`: each round takes a byte or more unless `chunk_size_` is 0, so a round for each byte
  -- is enough; with `chunk_size_` 0 no number of rounds is.
  unfoldable pub pack : Padding → ByteVector → Result (Padding × DataBufferList)
  pack p input = do
    (out, rng) ← pack_loop p.chunk_size p.pad_max (length input) input 0 p.pack_rng
    ok (record p { pack_rng = rng }, out)

  unfoldable pub unpack : Padding → ByteVector → Result (Padding × DataBufferList)
  unpack p input = do
    done ← apply_unpack p.chunk_size p.pad_max input p.unpack_buffer
    ok (record p { unpack_buffer = done.acc }, done.buffers)
