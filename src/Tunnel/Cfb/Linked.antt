-- ===== src/Tunnel/Cfb/Linked.antt =====
-- `CfbProcessor` as a codec: the receiver decrypts what the sender encrypted, however it is cut.
use msg.Prelude.{
  ℕ, ◌+◌, ◌≡◌, refl, sym, ap, ap₂, ◌∙◌, [], ◌++◌, length, length-append, append-nil, flatten,
  ok_inj, subst, arith,
}
use msg.Bytes.{ByteVector, u64}
use msg.Tunnel.Stream.{stream, IsCodec}
use msg.Tunnel.Cfb.{
  Direction, Cfb, Ciphered, encrypt_loop, decrypt_loop, encrypt, decrypt, pack, unpack, new_cfb,
}
use msg.Tunnel.Cfb.Loops.{length-encrypt_loop, decrypt_loop-encrypt_loop, decrypt_loop_cut}

-- The receiver's direction `r`, having decrypted `wire`, has put out `owed` and has the sender's
-- vector and offset.
pub record InStep (s r : Direction) (wire owed : ByteVector) : Type 0 where
  pub decrypts :
      ◌≡◌ {A = Ciphered} (decrypt_loop wire r.iv r.offset 0) (record { text = owed; iv = s.iv })
  pub offsets : s.offset ≡ u64 (r.offset + length wire)

pub InStep-encrypt :
    (s r : Direction) (wire owed x : ByteVector)
    → InStep s r wire owed
    → InStep (encrypt x s).0 r (wire ++ stream (encrypt x s).1) (owed ++ x)
unfolding encrypt flatten
InStep-encrypt s r wire owed x l =
    let c = encrypt_loop x s.iv s.offset 0 in
    let second =
      ap₂ (λ v o. decrypt_loop c.text v o 0) (ap (λ (d : Ciphered). d.iv) l.decrypts)
        (sym l.offsets)
      ∙ decrypt_loop-encrypt_loop x s.iv s.offset 0 in
    rw (append-nil c.text) (record {
      decrypts = decrypt_loop_cut wire c.text r.iv r.offset ∙ λ j. record {
        text = (l.decrypts j).text ++ (second j).text;
        iv = (second j).iv;
      };
      offsets =
          omega
            (arith, l.offsets, length-append wire c.text, length-encrypt_loop x s.iv s.offset 0);
    })

pub InStep-decrypt :
    (s r : Direction) (here later owed : ByteVector)
    → InStep s r (here ++ later) owed
    → (owed' : ByteVector) × (owed ≡ stream (decrypt here r).1 ++ owed')
      × InStep s (decrypt here r).0 later owed'
unfolding decrypt flatten
InStep-decrypt s r here later owed l =
    let d = decrypt_loop here r.iv r.offset 0 in
    let rest = decrypt_loop later d.iv (u64 (r.offset + length here)) 0 in
    let cut = sym (decrypt_loop_cut here later r.iv r.offset) ∙ l.decrypts in
    (
      rest.text,
      sym (ap (λ (c : Ciphered). c.text) cut) ∙ ap (λ t. t ++ rest.text) (sym (append-nil d.text)),
      record {
        decrypts = λ j. record { text = rest.text; iv = (cut j).iv };
        offsets = omega (arith, l.offsets, length-append here later);
      },
    )

pub InStep-nil : (s r : Direction) (owed : ByteVector) → InStep s r [] owed → owed ≡ []
unfolding decrypt_loop
InStep-nil s r owed l = ap (λ (c : Ciphered). c.text) (sym l.decrypts)

-- Two directions with one vector start in step.
pub InStep-start :
    (iv : ByteVector) (o o' : ℕ)
    → o ≡ 0
    → o' ≡ 0
    → InStep (record { iv = iv; offset = o }) (record { iv = iv; offset = o' }) [] []
unfolding decrypt_loop
InStep-start iv o o' h h' = record { decrypts = refl; offsets = omega arith }

-- For the processor: the sender's packing direction and the receiver's unpacking one.
abbrev pub Linked : Cfb → Cfb → ByteVector → ByteVector → Type 0
Linked s r = InStep s.packs r.unpacks

pub cfb-IsCodec : IsCodec pack unpack Linked
unfolding pack unpack
cfb-IsCodec = record {
  sends = λ s r wire owed x s' out l e.
      subst (λ (c : Cfb). InStep c.packs r.unpacks (wire ++ stream out) (owed ++ x)) (ok_inj e).0
        (subst (λ bs. InStep (encrypt x s.packs).0 r.unpacks (wire ++ stream bs) (owed ++ x))
          (ok_inj e).1 (InStep-encrypt s.packs r.unpacks wire owed x l));
  receives = λ s r here later owed l.
      let (owed', e, l') = InStep-decrypt s.packs r.unpacks here later owed l in
      (
        record r { unpacks = (decrypt here r.unpacks).0 },
        (decrypt here r.unpacks).1,
        owed',
        refl,
        e,
        l',
      );
  settles = λ s r owed l. InStep-nil s.packs r.unpacks owed l;
}

-- Two processors made from one key start in step.
pub new_cfb-Linked : (key : ByteVector) → Linked (new_cfb key) (new_cfb key) [] []
unfolding new_cfb decrypt_loop
new_cfb-Linked key = record { decrypts = refl; offsets = refl }
