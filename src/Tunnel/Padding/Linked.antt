-- ===== src/Tunnel/Padding/Linked.antt =====
-- `PaddingProcessor` as a codec: frames that TCP cuts anywhere give the payloads back.
use mathlib.Core.List.{map-append}
use msg.Prelude.{
  ℕ, ◌+◌, ◌^◌, ◌≤◌, ◌<◌, ◌≡◌, refl, sym, ap, ap₂, ◌∙◌, transport, Bool, List, [], ◌∷◌, ◌++◌, map,
  flatten, All, All-append, length, drop, length-append, append_assoc, flatten-append, ok, ok_inj,
  arith,
}
use msg.Bytes.{ByteVector}
use msg.Random.{Random}
use msg.Tunnel.Stream.{DataBufferList, stream, IsCodec}
use msg.Tunnel.Padding.{Padding, apply_unpack, pack, unpack, new_padding}
use msg.Tunnel.Padding.Frames.{Frame, encode, Fits, carried, pack_loop-frames}
use msg.Tunnel.Padding.Unframe.{IsShort, length-encode, unpack_loop-frames}

Fits-mono :
    (c m c' m' : ℕ) (fs : List Frame) → c ≤ c' → m ≤ m' → All (Fits c m) fs → All (Fits c' m') fs
Fits-mono c m c' m' [] p q h = tt
Fits-mono c m c' m' (f ∷ fs) p q (h, hs) =
    ((omega arith, omega arith), Fits-mono c m c' m' fs p q hs)

stream-append :
    (fs gs : List Frame)
    → stream (map encode (fs ++ gs)) ≡ stream (map encode fs) ++ stream (map encode gs)
unfolding flatten
stream-append fs gs =
    ap stream (map-append encode fs gs) ∙ flatten-append (map encode fs) (map encode gs)

carried-append : (fs gs : List Frame) → carried (fs ++ gs) ≡ carried fs ++ carried gs
unfolding flatten
carried-append fs gs =
    ap flatten (map-append (λ (f : Frame). f.payload) fs gs)
    ∙ flatten-append (map (λ (f : Frame). f.payload) fs) (map (λ (f : Frame). f.payload) gs)

-- What is short of the first frame stays short when frames follow.
IsShort-append :
    (bytes wire : ByteVector) (fs gs : List Frame)
    → bytes ++ wire ≡ stream (map encode fs)
    → IsShort bytes fs
    → IsShort bytes (fs ++ gs)
unfolding flatten
IsShort-append bytes wire [] [] e h = tt
IsShort-append bytes wire [] (g ∷ gs) e h =
    omega (arith, ap length e, length-append bytes wire, length-encode g)
IsShort-append bytes wire (f ∷ fs) gs e h = h

module _ (R : Random) where
  -- The frames on their way: part of the first is in the receiver's buffer already.
  pub record Linked (s r : Padding R) (wire owed : ByteVector) : Type 0 where
    pub chunk_pos : 0 < s.chunk_size
    pub chunk_le : s.chunk_size ≤ r.chunk_size
    pub chunk_small : r.chunk_size < 2 ^ 32
    pub pad_le : s.pad_max ≤ r.pad_max
    pub pad_small : r.pad_max < 2 ^ 32
    pub frames : List Frame
    pub fit : All (Fits r.chunk_size r.pad_max) frames
    pub arriving : r.unpack_buffer ++ wire ≡ stream (map encode frames)
    pub owes : owed ≡ carried frames
    pub short : IsShort r.unpack_buffer frames

  -- The packer ends with a result, and what it puts on the wire is owed.
  pub pack-Linked :
      (s r : Padding R) (wire owed x : ByteVector)
      → Linked s r wire owed
      → (s' : Padding R) × (out : DataBufferList) × (pack R s x ≡ ok (s', out))
        × Linked s' r (wire ++ stream out) (owed ++ x)
  unfolding pack
  pack-Linked s r wire owed x l =
      let (fs, rng, e, fits, whole) =
        pack_loop-frames R s.chunk_size s.pad_max (length x) x 0 s.pack_rng l.chunk_pos
          (omega (arith, l.chunk_le, l.chunk_small)) (omega (arith, l.pad_le, l.pad_small))
          (omega arith) in
      (
        record s { pack_rng = rng },
        map encode fs,
        rw e,
        record {
          chunk_pos = l.chunk_pos;
          chunk_le = l.chunk_le;
          chunk_small = l.chunk_small;
          pad_le = l.pad_le;
          pad_small = l.pad_small;
          frames = l.frames ++ fs;
          fit =
              All-append (Fits r.chunk_size r.pad_max) l.frames fs l.fit (
                Fits-mono s.chunk_size s.pad_max r.chunk_size r.pad_max fs l.chunk_le l.pad_le
                  fits);
          arriving =
              sym (append_assoc r.unpack_buffer wire (stream (map encode fs)))
              ∙ ap (λ b. b ++ stream (map encode fs)) l.arriving
              ∙ sym (stream-append l.frames fs);
          owes = ap₂ ◌++◌ l.owes (sym whole) ∙ sym (carried-append l.frames fs);
          short = IsShort-append r.unpack_buffer wire l.frames fs l.arriving l.short;
        },
      )

  unpack-Linked :
      (s r : Padding R) (here later owed : ByteVector)
      → Linked s r (here ++ later) owed
      → (r' : Padding R) × (out : DataBufferList) × (owed' : ByteVector) × (unpack R r here
          ≡ ok (r', out))
        × (owed ≡ stream out ++ owed')
        × Linked s r' later owed'
  unfolding unpack apply_unpack
  unpack-Linked s r here later owed l =
      let acc = r.unpack_buffer ++ here in
      let (out, end, fs, e, o, w, fits, short) =
        unpack_loop-frames r.chunk_size r.pad_max acc (length acc + 1) 0 later l.frames
          l.chunk_small l.pad_small l.fit (append_assoc r.unpack_buffer here later ∙ l.arriving)
          (omega arith) in
      (
        record r { unpack_buffer = drop end acc },
        out,
        carried fs,
        rw e,
        l.owes ∙ o,
        record {
          chunk_pos = l.chunk_pos;
          chunk_le = l.chunk_le;
          chunk_small = l.chunk_small;
          pad_le = l.pad_le;
          pad_small = l.pad_small;
          frames = fs;
          fit = fits;
          arriving = w;
          owes = refl;
          short = short;
        },
      )

  nothing_left :
      (bytes : ByteVector) (fs : List Frame)
      → bytes ++ [] ≡ stream (map encode fs)
      → IsShort bytes fs
      → carried fs ≡ []
  unfolding flatten
  nothing_left bytes [] e h = refl
  nothing_left bytes (f ∷ fs) e h = absurd (
      omega (
        arith,
        ap length e,
        length-append bytes [],
        length-append (encode f) (stream (map encode fs)),
      ))

  pub padding-IsCodec : IsCodec (pack R) (unpack R) Linked
  padding-IsCodec = record {
    sends = λ s r wire owed x s' out l e.
        let (t, bs, p, l') = pack-Linked s r wire owed x l in
        transport
          (λ i.
            Linked ((ok_inj (sym p ∙ e)).0 i) r (wire ++ stream ((ok_inj (sym p ∙ e)).1 i))
              (owed ++ x))
          l';
    receives = unpack-Linked;
    settles = λ s r owed l. l.owes ∙ nothing_left r.unpack_buffer l.frames l.arriving l.short;
  }

  -- Processors of one configuration start in step, whatever their seeds and roles.
  pub new_padding-Linked :
      (chunk_size pad_max seed seed' : ℕ) (reverse reverse' : Bool)
      → 0 < chunk_size
      → chunk_size < 2 ^ 32
      → pad_max < 2 ^ 32
      → Linked
          (new_padding R chunk_size pad_max seed reverse)
          (new_padding R chunk_size pad_max seed' reverse')
          []
          []
  unfolding new_padding flatten
  new_padding-Linked chunk_size pad_max seed seed' reverse reverse' hc hs hm = record {
    chunk_pos = hc;
    chunk_le = omega arith;
    chunk_small = hs;
    pad_le = omega arith;
    pad_small = hm;
    frames = [];
    fit = tt;
    arriving = refl;
    owes = refl;
    short = tt;
  }
