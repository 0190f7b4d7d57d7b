-- ===== src/Tunnel/Padding/Unframe.antt =====
-- `apply_unpack` on a stream of frames that has arrived in part.
use msg.Prelude.{
  ℕ, zero, suc, ◌+◌, ◌-◌, ◌^◌, ◌≤◌, ◌<◌, ◌≡◌, refl, sym, ap, ◌∙◌, inl, inr, List, [], ◌∷◌, ◌++◌,
  map, flatten, All, length, take, drop, ltb, length-append, length-drop, take-append, drop-append,
  drop-add, append_assoc, split-append, Bool-cases, ltb→lt, ltb→le, le→ltb, lt→ltb, ok, arith,
}
use msg.Bytes.{ByteVector}
use msg.Tunnel.Stream.{DataBufferList, stream}
use msg.Tunnel.Padding.{slice, frame_len, size_max, read_u32, unpack_loop}
use msg.Tunnel.Padding.Header.{header, length-header, read_u32-drop, read-header}
use msg.Tunnel.Padding.Frames.{Frame, encode, Fits, carried}

pub length-encode : (f : Frame) → length (encode f) ≡ 8 + length f.payload + length f.pad
length-encode f = omega (
  arith,
  length-append (header (length f.payload) (length f.pad) ++ f.payload) f.pad,
  length-append (header (length f.payload) (length f.pad)) f.payload,
  length-header (length f.payload) (length f.pad),
)

-- What has arrived is less than the frame that is next.
abbrev pub IsShort : ByteVector → List Frame → Type 0
IsShort bytes [] = Unit
IsShort bytes (f ∷ fs) = length bytes < length (encode f)

module _ (chunk_size pad_max : ℕ) (acc : ByteVector) where
  -- Too little for a header.
  break_header :
      (fuel pos : ℕ)
      → length (drop pos acc) < 8
      → unpack_loop chunk_size pad_max (suc fuel) acc pos ≡ ok ([], pos)
  unfolding unpack_loop
  break_header fuel pos h = rw (lt→ltb (length acc - pos) 8 (omega (arith, length-drop pos acc)))

  module _ (f : Frame) (fits : Fits chunk_size pad_max f) (chunk_small : chunk_size < 2 ^ 32)
      (pad_small : pad_max < 2 ^ 32) where
    -- The header of a frame that fits passes the tests.
    after_header :
        (fuel pos : ℕ) (rest : ByteVector)
        → drop pos acc ≡ header (length f.payload) (length f.pad) ++ rest
        → (read_u32 acc pos ≡ length f.payload) × (read_u32 acc (pos + 4) ≡ length f.pad)
    after_header fuel pos rest e =
        let (r0, r4) =
          read-header (length f.payload) (length f.pad) rest (omega arith) (omega arith) in
        (
          ap (read_u32 acc) (let z : pos ≡ pos + 0 = omega arith in z)
              ∙ sym (read_u32-drop acc pos 0)
              ∙ ap (λ b. read_u32 b 0) e
              ∙ r0,
          sym (read_u32-drop acc pos 4) ∙ ap (λ b. read_u32 b 4) e ∙ r4,
        )

    break_frame :
        (fuel pos : ℕ) (rest : ByteVector)
        → drop pos acc ≡ header (length f.payload) (length f.pad) ++ rest
        → length (drop pos acc) < length (encode f)
        → unpack_loop chunk_size pad_max (suc fuel) acc pos ≡ ok ([], pos)
    unfolding unpack_loop
    break_frame fuel pos rest e h =
        let (reads_payload, reads_pad) = after_header fuel pos rest e in
        let m = length f.payload in
        let n = length f.pad in
        let len : frame_len m n ≡ 8 + m + n = omega arith in
        let there : 8 ≤ length acc - pos = omega (
          arith,
          length-drop pos acc,
          ap length e,
          length-append (header m n) rest,
          length-header m n,
        ) in
        let short : length acc - pos < 8 + m + n =
          omega (arith, length-drop pos acc, length-encode f) in
        rw (
          reads_payload,
          reads_pad,
          len,
          le→ltb (length acc - pos) 8 there,
          le→ltb chunk_size m fits.0,
          le→ltb pad_max n fits.1,
          le→ltb size_max (8 + m + n) (omega arith),
          lt→ltb (length acc - pos) (8 + m + n) short,
        )

    take_frame :
        (fuel pos : ℕ) (rest : ByteVector) (out : DataBufferList) (end : ℕ)
        → drop pos acc ≡ encode f ++ rest
        → unpack_loop chunk_size pad_max fuel acc (pos + length (encode f)) ≡ ok (out, end)
        → unpack_loop chunk_size pad_max (suc fuel) acc pos ≡ ok (f.payload ∷ out, end)
    unfolding unpack_loop
    take_frame fuel pos rest out end e next =
        let m = length f.payload in
        let n = length f.pad in
        let e' : drop pos acc ≡ header m n ++ (f.payload ++ (f.pad ++ rest)) =
          e
          ∙ append_assoc (header m n ++ f.payload) f.pad rest
          ∙ append_assoc (header m n) f.payload (f.pad ++ rest) in
        let (reads_payload, reads_pad) = after_header fuel pos (f.payload ++ (f.pad ++ rest)) e' in
        let len : frame_len m n ≡ 8 + m + n = omega arith in
        let whole : 8 + m + n ≤ length acc - pos = omega (
          arith,
          length-drop pos acc,
          ap length e,
          length-append (encode f) rest,
          length-encode f,
        ) in
        let payload : slice acc (pos + 8) m ≡ f.payload =
          ap (take m) (
            sym (drop-add pos 8 acc)
            ∙ ap (drop 8) e'
            ∙ drop-append 8 (header m n) (f.payload ++ (f.pad ++ rest)) (length-header m n))
          ∙ take-append m f.payload (f.pad ++ rest) refl in
        let next' : unpack_loop chunk_size pad_max fuel acc (pos + (8 + m + n)) ≡ ok (out, end) =
          ap (λ (k : ℕ). unpack_loop chunk_size pad_max fuel acc (pos + k)) (sym (length-encode f))
          ∙ next in
        rw (
          reads_payload,
          reads_pad,
          len,
          le→ltb (length acc - pos) 8 (omega arith),
          le→ltb chunk_size m fits.0,
          le→ltb pad_max n fits.1,
          le→ltb size_max (8 + m + n) (omega arith),
          le→ltb (length acc - pos) (8 + m + n) whole,
          next',
          payload,
        )

-- The limits fit into 32 bits, and the bytes from `pos` on, with `later` behind them, are frames
-- within the limits. With more rounds than bytes the loop ends: it puts out the payloads of the
-- frames that are there whole, and stops in front of the first that is not.
pub unpack_loop-frames :
    (chunk_size pad_max : ℕ) (acc : ByteVector) (fuel pos : ℕ) (later : ByteVector)
    (fs : List Frame)
    → chunk_size < 2 ^ 32
    → pad_max < 2 ^ 32
    → All (Fits chunk_size pad_max) fs
    → drop pos acc ++ later ≡ stream (map encode fs)
    → length (drop pos acc) < fuel
    → (out : DataBufferList) × (end : ℕ) × (fs' : List Frame) × (unpack_loop chunk_size pad_max fuel
          acc pos
        ≡ ok (out, end))
      × (carried fs ≡ stream out ++ carried fs')
      × (drop end acc ++ later ≡ stream (map encode fs'))
      × All (Fits chunk_size pad_max) fs'
      × IsShort (drop end acc) fs'
unfolding flatten
unpack_loop-frames c m acc zero pos later fs hc hm fits e enough = absurd (omega arith)
unpack_loop-frames c m acc (suc fuel) pos later [] hc hm fits e enough =
    let none_left : length (drop pos acc) < 8 =
      omega (arith, ap length e, length-append (drop pos acc) later) in
    ([], pos, [], break_header c m acc fuel pos none_left, refl, e, tt, tt)
unpack_loop-frames c m acc (suc fuel) pos later (f ∷ fs) hc hm (fit, fits) e enough =
    elim (Bool-cases (ltb (length (drop pos acc)) (length (encode f)))) [
      | inl short ↦
          let h = ltb→lt (length (drop pos acc)) (length (encode f)) short in
          ([], pos, f ∷ fs, stops h, refl, e, (fit, fits), h)
      | inr whole ↦
          let h = ltb→le (length (drop pos acc)) (length (encode f)) whole in
          let (rest, cut, e') =
            split-append (encode f) (stream (map encode fs)) (drop pos acc) later (sym e) h in
          let moved : drop (pos + length (encode f)) acc ≡ rest =
            sym (drop-add pos (length (encode f)) acc)
            ∙ ap (drop (length (encode f))) cut
            ∙ drop-append (length (encode f)) (encode f) rest refl in
          let fewer : length (drop (pos + length (encode f)) acc) < fuel = omega (
            arith,
            ap length moved,
            ap length cut,
            length-append (encode f) rest,
            length-encode f,
          ) in
          let (out, end, fs', run, o, w, ft, s) =
            unpack_loop-frames c m acc fuel (pos + length (encode f)) later fs hc hm fits
              (ap (λ b. b ++ later) moved ∙ sym e') fewer in
          (
            f.payload ∷ out,
            end,
            fs',
            take_frame c m acc f fit hc hm fuel pos rest out end cut run,
            ap (◌++◌ f.payload) o ∙ sym (append_assoc f.payload (stream out) (carried fs')),
            w,
            ft,
            s,
          )
    ]
  where
    stops :
        length (drop pos acc) < length (encode f)
        → unpack_loop c m (suc fuel) acc pos ≡ ok ([], pos)
    stops h = elim (Bool-cases (ltb (length (drop pos acc)) 8)) [
      | inl tiny ↦ break_header c m acc fuel pos (ltb→lt (length (drop pos acc)) 8 tiny)
      | inr some_header ↦
          let (rest, cut, _) =
            split-append (header (length f.payload) (length f.pad))
              (f.payload ++ (f.pad ++ stream (map encode fs))) (drop pos acc) later
              (sym (
                  append_assoc (header (length f.payload) (length f.pad)) f.payload
                    (f.pad ++ stream (map encode fs)))
                ∙ sym (
                    append_assoc (header (length f.payload) (length f.pad) ++ f.payload) f.pad
                      (stream (map encode fs)))
                ∙ sym e)
              (omega (
                arith,
                length-header (length f.payload) (length f.pad),
                ltb→le (length (drop pos acc)) 8 some_header,
              )) in
          break_frame c m acc f fit hc hm fuel pos rest cut h
    ]
