-- ===== src/Tunnel/Cfb/Loops.antt =====
-- The cipher loops on a stream that is cut into pieces, and on what the other loop wrote.
use msg.Prelude.{
  ℕ, suc, ◌+◌, ◌%◌, bit_xor, ◌≡◌, refl, ap, ◌∙◌, [], ◌∷◌, ◌++◌, length, get_or, arith,
}
use msg.Bytes.{ByteVector, u64}
use msg.Bytes.Xor.{bit_xor_cancel}
use msg.Tunnel.Cfb.{mix, encrypt_loop, decrypt_loop}

pub length-encrypt_loop :
    (xs iv : ByteVector) (offset i : ℕ) → length (encrypt_loop xs iv offset i).text ≡ length xs
unfolding encrypt_loop
length-encrypt_loop [] iv offset i = refl
length-encrypt_loop (x ∷ xs) iv offset i =
    let pos = u64 (offset + i) % length iv in
    ap suc (length-encrypt_loop xs (mix (bit_xor x (get_or iv pos 0)) iv pos) offset (i + 1))

-- Decrypting what the encryption loop wrote, from the same vector, offset and index, gives the text
-- back and leaves the same vector behind.
pub decrypt_loop-encrypt_loop :
    (xs iv : ByteVector) (offset i : ℕ)
    → decrypt_loop (encrypt_loop xs iv offset i).text iv offset i
      ≡ record { text = xs; iv = (encrypt_loop xs iv offset i).iv }
unfolding encrypt_loop decrypt_loop
decrypt_loop-encrypt_loop [] iv offset i = refl
decrypt_loop-encrypt_loop (x ∷ xs) iv offset i =
    let pos = u64 (offset + i) % length iv in
    let c = bit_xor x (get_or iv pos 0) in
    let ih = decrypt_loop-encrypt_loop xs (mix c iv pos) offset (i + 1) in
    λ j. record { text = bit_xor_cancel x (get_or iv pos 0) j ∷ (ih j).text; iv = (ih j).iv }

-- Only the sum of the offset and the index counts, and that wraps at 2 ^ 64.
decrypt_loop_shift :
    (xs iv : ByteVector) (offset k i : ℕ)
    → decrypt_loop xs iv offset (k + i) ≡ decrypt_loop xs iv (u64 (offset + k)) i
unfolding decrypt_loop
decrypt_loop_shift [] iv offset k i = refl
decrypt_loop_shift (x ∷ xs) iv offset k i =
    let e : u64 (offset + (k + i)) ≡ u64 (u64 (offset + k) + i) = omega arith in
    let next : k + i + 1 ≡ k + (i + 1) = omega arith in
    let pos = u64 (u64 (offset + k) + i) % length iv in
    rw (e, next, decrypt_loop_shift xs (mix x iv pos) offset k (i + 1))

decrypt_loop_append :
    (xs ys iv : ByteVector) (offset i : ℕ)
    → let c = decrypt_loop xs iv offset i in
      let d = decrypt_loop ys c.iv offset (length xs + i) in
      decrypt_loop (xs ++ ys) iv offset i ≡ record { text = c.text ++ d.text; iv = d.iv }
unfolding decrypt_loop
decrypt_loop_append [] ys iv offset i =
    let e : i ≡ 0 + i = omega arith in ap (decrypt_loop ys iv offset) e
decrypt_loop_append (x ∷ xs) ys iv offset i =
    let next : suc (length xs) + i ≡ length xs + (i + 1) = omega arith in
    let pos = u64 (offset + i) % length iv in
    let ih = decrypt_loop_append xs ys (mix x iv pos) offset (i + 1) in
    rw next (λ j. record { text = bit_xor x (get_or iv pos 0) ∷ (ih j).text; iv = (ih j).iv })

-- A stream that is cut in two is decrypted as it is whole, if the second call starts from the
-- vector and the offset that the first one left.
pub decrypt_loop_cut :
    (xs ys iv : ByteVector) (offset : ℕ)
    → let c = decrypt_loop xs iv offset 0 in
      let d = decrypt_loop ys c.iv (u64 (offset + length xs)) 0 in
      decrypt_loop (xs ++ ys) iv offset 0 ≡ record { text = c.text ++ d.text; iv = d.iv }
decrypt_loop_cut xs ys iv offset =
    let e = decrypt_loop_shift ys (decrypt_loop xs iv offset 0).iv offset (length xs) 0 in
    decrypt_loop_append xs ys iv offset 0 ∙ λ j. record {
      text = (decrypt_loop xs iv offset 0).text ++ (e j).text;
      iv = (e j).iv;
    }
