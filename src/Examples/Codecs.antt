-- ===== src/Examples/Codecs.antt =====
-- Instances for the processors one by one.
use msg.Prelude.{
  ◌^◌, ◌/◌, ℕ, ◌+◌, ◌<◌, ◌≡◌, ◌≢◌, refl, ap, ◌⊎◌, true, List, [], ◌∷◌, ◌++◌, map, flatten, All,
  length, take, drop, get_or, ok, throws, diverges, hmac_mismatch, arith,
}
use msg.Bytes.{ByteVector, u8, u64}
use msg.Bytes.Equal.{same}
use msg.Bytes.BigEndian.{word_bytes, word_at, word_at-word_bytes}
use msg.Tunnel.Stream.{DataBufferList, stream}
use msg.Tunnel.Cfb.{decrypt, encrypt_loop, decrypt_loop}
use msg.Tunnel.Cfb.Loops.{decrypt_loop-encrypt_loop, decrypt_loop_cut}
use msg.Tunnel.Padding.{write_u32, pack_loop, unpack_loop}
use msg.Tunnel.Padding.Header.{header}
use msg.Tunnel.Padding.Frames.{Frame, encode, Fits, carried, pack_loop-frames, pack_loop_zero_chunk}
use msg.Tunnel.Padding.Unframe.{IsShort, unpack_loop-frames}
use msg.Tunnel.Nonce.{
  CfbNonce, tag_size, handshake_packet_size, new_cfb_nonce, hmac_sha256, derive_iv, digest,
  decrypt_all, init_unpack, unpack,
}
use msg.Tunnel.Nonce.Handshake.{init_unpack_accepts, init_unpack_refuses}
use msg.Tunnel.Nonce.Authenticated.{IsTagged, unpack_authenticated}
use msg.Examples.Setup.{counting, toy, replicate}

pack_loop_zero_chunk_example : pack_loop counting 0 3 5 (7 ∷ []) 0 1 ≡ diverges
pack_loop_zero_chunk_example = pack_loop_zero_chunk counting 3 5 (7 ∷ []) 0 1 (omega arith)

pack_loop-frames_example :
    (fs : List Frame) × (rng : ℕ) × (pack_loop counting 2 3 3 (7 ∷ 8 ∷ 9 ∷ []) 0 1
      ≡ ok (map encode fs, rng))
    × All (Fits 2 3) fs
    × (carried fs ≡ drop 0 (7 ∷ 8 ∷ 9 ∷ []))
pack_loop-frames_example =
    pack_loop-frames counting 2 3 3 (7 ∷ 8 ∷ 9 ∷ []) 0 1 (omega arith) (omega arith) (omega arith)
      (omega arith)

abbrev first_frame : Frame
first_frame = record { payload = 7 ∷ 8 ∷ []; pad = 0 ∷ [] }

abbrev second_frame : Frame
second_frame = record { payload = 9 ∷ []; pad = [] }

abbrev frames : List Frame
frames = first_frame ∷ second_frame ∷ []

abbrev arrived : ByteVector
arrived = take 14 (stream (map encode frames))

abbrev coming : ByteVector
coming = drop 14 (stream (map encode frames))

arrived_eq : arrived ++ coming ≡ stream (map encode frames)
unfolding flatten header word_bytes write_u32
arrived_eq = refl

arrived-length : length arrived < 15
unfolding flatten header word_bytes write_u32
arrived-length = omega arith

unpack_loop-frames_example :
    (out : DataBufferList) × (end : ℕ) × (fs : List Frame) × (unpack_loop 2 3 15 arrived 0
      ≡ ok (out, end))
    × (carried frames ≡ stream out ++ carried fs)
    × (drop end arrived ++ coming ≡ stream (map encode fs))
    × All (Fits 2 3) fs
    × IsShort (drop end arrived) fs
unpack_loop-frames_example =
    unpack_loop-frames 2 3 arrived 15 0 coming frames (omega arith) (omega arith)
      ((omega arith, omega arith), ((omega arith, omega arith), tt)) arrived_eq arrived-length

abbrev vector : ByteVector
vector = 1 ∷ 2 ∷ 3 ∷ []

decrypt_loop-encrypt_loop_example :
    decrypt_loop (encrypt_loop (10 ∷ 20 ∷ []) vector 5 0).text vector 5 0
    ≡ record { text = 10 ∷ 20 ∷ []; iv = (encrypt_loop (10 ∷ 20 ∷ []) vector 5 0).iv }
decrypt_loop-encrypt_loop_example = decrypt_loop-encrypt_loop (10 ∷ 20 ∷ []) vector 5 0

decrypt_loop_cut_example :
    let c = decrypt_loop (10 ∷ 20 ∷ []) vector 5 0 in
    let d = decrypt_loop (30 ∷ []) c.iv (u64 (5 + 2)) 0 in
    decrypt_loop (10 ∷ 20 ∷ 30 ∷ []) vector 5 0 ≡ record { text = c.text ++ d.text; iv = d.iv }
decrypt_loop_cut_example = decrypt_loop_cut (10 ∷ 20 ∷ []) (30 ∷ []) vector 5

abbrev receiver : CfbNonce toy
receiver = new_cfb_nonce toy (1 ∷ []) (2 ∷ 3 ∷ []) 0

init_unpack_accepts_example :
    init_unpack toy receiver (replicate 32 2 ++ replicate 512 5)
    ≡ ok (record receiver {
      unpacks = record { iv = replicate 64 513; offset = 0 };
      unpack_ready = true;
    })
unfolding new_cfb_nonce hmac_sha256 derive_iv digest
init_unpack_accepts_example =
    init_unpack_accepts toy receiver (replicate 32 2) (replicate 512 5) (replicate 64 513) refl refl
      refl refl

wrong_tag : take tag_size (replicate 544 9) ≢ replicate 32 2
wrong_tag e =
    let first : 9 ≡ 2 = ap (λ (b : ByteVector). get_or b 0 0) e in absurd (omega (arith, first))

init_unpack_refuses_example : init_unpack toy receiver (replicate 544 9) ≡ throws hmac_mismatch
unfolding new_cfb_nonce hmac_sha256
init_unpack_refuses_example =
    init_unpack_refuses toy receiver (replicate 544 9) (replicate 32 2) refl wrong_tag

abbrev accepted : CfbNonce toy
accepted = record receiver {
  unpacks = record { iv = replicate 64 513; offset = 0 };
  unpack_ready = true;
}

abbrev packet : ByteVector
packet = replicate 32 2 ++ replicate 512 5

receiver_run : unpack toy receiver packet ≡ ok (accepted, [] ∷ [])
unfolding new_cfb_nonce hmac_sha256 derive_iv digest init_unpack unpack same decrypt_all decrypt
    decrypt_loop
receiver_run = refl

unpack_authenticated_example :
    ((length packet < handshake_packet_size)
      × (◌≡◌ {A = DataBufferList} ([] ∷ []) [])
      × (accepted ≡ record receiver { unpack_handshake_buffer = packet }))
    ⊎ IsTagged toy receiver.hmac_key packet
unfolding new_cfb_nonce
unpack_authenticated_example =
    unpack_authenticated toy receiver accepted packet ([] ∷ []) refl receiver_run

word_at-word_bytes_example :
    word_at (u8 (300 / 2 ^ 24)) (u8 (300 / 2 ^ 16)) (u8 (300 / 2 ^ 8)) (u8 300) ≡ 300
word_at-word_bytes_example = word_at-word_bytes 300 (omega arith)
