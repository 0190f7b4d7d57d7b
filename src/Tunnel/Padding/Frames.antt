-- ===== src/Tunnel/Padding/Frames.antt =====
-- The frames that `apply_pack` makes: they hold the input in order, within the limits.
use msg.Prelude.{
  ℕ, zero, suc, ◌+◌, ◌-◌, ◌^◌, ◌≤◌, ◌<◌, min, ◌≡◌, refl, sym, ap, ap₂, ◌∙◌, inl, inr, List, [], ◌∷◌,
  ◌++◌, map, flatten, All, length, drop, ltb, length-take, length-drop, take-append-drop, drop-add,
  drop_past, Bool-cases, ltb→lt, lt→ltb, ltb→le, le→ltb, ok, diverges, arith,
}
use msg.Bytes.{ByteVector, u32}
use msg.Random.{Random}
use msg.Tunnel.Stream.{DataBuffer}
use msg.Tunnel.Padding.{slice, pad_bytes, pack_loop}
use msg.Tunnel.Padding.Header.{header}

-- A frame as data: what it carries and the padding behind it.
pub record Frame : Type 0 where
  pub payload : ByteVector
  pub pad : ByteVector

abbrev pub encode : Frame → DataBuffer
encode f = (header (length f.payload) (length f.pad) ++ f.payload) ++ f.pad

abbrev pub Fits : ℕ → ℕ → Frame → Type 0
Fits chunk_size pad_max f = (length f.payload ≤ chunk_size) × (length f.pad ≤ pad_max)

-- The bytes that frames carry.
abbrev pub carried : List Frame → ByteVector
unfolding flatten
carried fs = flatten (map (λ (f : Frame). f.payload) fs)

module _ (R : Random) where
  open R use {Engine, draw, draw-le}

  pub length-pad_bytes : (n : ℕ) (rng : Engine) → length (pad_bytes R n rng).0 ≡ n
  unfolding pad_bytes
  length-pad_bytes zero rng = refl
  length-pad_bytes (suc n) rng = ap suc (length-pad_bytes n (draw 255 rng).1)

  -- With limits that fit into 32 bits and a chunk size that is not 0, as many rounds as there are
  -- bytes from `pos` on are enough: the loop ends, and puts out frames within the limits whose
  -- payloads are the input from `pos` on.
  pub pack_loop-frames :
      (chunk_size pad_max fuel : ℕ) (input : ByteVector) (pos : ℕ) (rng : Engine)
      → 0 < chunk_size
      → chunk_size < 2 ^ 32
      → pad_max < 2 ^ 32
      → length input - pos ≤ fuel
      → (fs : List Frame) × (rng' : Engine) × (pack_loop R chunk_size pad_max fuel input pos rng
          ≡ ok (map encode fs, rng'))
        × All (Fits chunk_size pad_max) fs
        × (carried fs ≡ drop pos input)
  unfolding pack_loop flatten header
  pack_loop-frames chunk_size pad_max zero input pos rng hc hs hm enough = (
    [],
    rng,
    rw (le→ltb pos (length input) (omega arith)),
    tt,
    sym (drop_past pos input (omega arith)),
  )
  pack_loop-frames chunk_size pad_max (suc fuel) input pos rng hc hs hm enough =
      elim (Bool-cases (ltb pos (length input))) [
        | inl more ↦
            let k = min chunk_size (length input - pos) in
            let (n, rng₁) = draw (u32 pad_max) rng in
            let below : n ≤ u32 pad_max = draw-le (u32 pad_max) rng in
            let (pad, rng₂) = pad_bytes R n rng₁ in
            let pad_length : length pad ≡ n = length-pad_bytes n rng₁ in
            let payload = slice input pos k in
            let inside : pos < length input = ltb→lt pos (length input) more in
            let taken : length payload ≡ k =
              omega (arith, length-take k (drop pos input), length-drop pos input) in
            let small : u32 k ≡ length payload = omega arith in
            let (fs, rng', e, fits, whole) =
              pack_loop-frames chunk_size pad_max fuel input (pos + k) rng₂ hc hs hm
                (omega arith) in
            (
              record { payload = payload; pad = pad } ∷ fs,
              rng',
              rw (more, e)
                  (ap₂ (λ a b. ok ((((header a b) ++ payload) ++ pad) ∷ map encode fs, rng')) small
                    (sym pad_length)),
              ((omega arith, omega arith), fits),
              ap (◌++◌ payload) (whole ∙ sym (drop-add pos k input))
                  ∙ take-append-drop k (drop pos input),
            )
        | inr done ↦
            ([], rng, rw done, tt, sym (drop_past pos input (ltb→le pos (length input) done)))
      ]

  -- With a chunk size of 0 no number of rounds ends the loop of `apply_pack`, if there is a byte to
  -- send.
  pub pack_loop_zero_chunk :
      (pad_max fuel : ℕ) (input : ByteVector) (pos : ℕ) (rng : Engine)
      → pos < length input
      → pack_loop R 0 pad_max fuel input pos rng ≡ diverges
  unfolding pack_loop
  pack_loop_zero_chunk pad_max zero input pos rng h = rw (lt→ltb _ _ h)
  pack_loop_zero_chunk pad_max (suc fuel) input pos rng h =
      let (n, rng₁) = draw (u32 pad_max) rng in
      let ih =
        pack_loop_zero_chunk pad_max fuel input (pos + 0) (pad_bytes R n rng₁).1 (omega arith) in
      rw (lt→ltb _ _ h, let e : min 0 (length input - pos) ≡ 0 = omega arith in e, ih)
