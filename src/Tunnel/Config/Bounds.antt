-- ===== src/Tunnel/Config/Bounds.antt =====
-- What `build_processor_chain` lets through: the limits of a padding processor fit into 32 bits.
use msg.Prelude.{
  ℕ, suc, ◌≤◌, ◌≡◌, subst, inl, inr, Bool, true, false, ◌||◌, Option, none, some, List, [], ◌∷◌,
  ◌++◌, reverse, All, All-append, ltb, if◌then◌else◌, Bool-cases, Result, ok, ok_injective,
  some_inj, >>=-eq-ok, arith,
}
use msg.Bytes.{ByteVector}
use msg.Bytes.Equal.{same}
use msg.Random.{Random}
use msg.Crypto.{Crypto}
use msg.Tunnel.Text.{codes, stoull}
use msg.Tunnel.Padding.{new_padding}
use msg.Tunnel.Processor.{Codec, Processor, identity, cfb, cfb_nonce, padding}
use msg.Tunnel.Chain.{ProcessorChain, add}
use msg.Tunnel.Config.{
  KeyValues, Draws, lookup, u32_max, spec_name, spec_args, parse_kv, build_cfb, cfb_of,
  cfb_nonce_of, build_cfb_nonce, padding_seed, padding_in_range, padding_of, build_padding, branch,
  build_named, build_one, build_loop, build_processor_chain,
}

module _ (R : Random) (C : Crypto) where
  abbrev pub InRange : Codec R C → Type 0
  InRange (padding p) = (p.chunk_size ≤ u32_max) × (p.pad_max ≤ u32_max)
  InRange identity = Unit
  InRange (cfb c) = Unit
  InRange (cfb_nonce c) = Unit

  abbrev IsInRange : Processor R C → Type 0
  IsInRange p = InRange p.codec

  in_range :
      (d : Draws C) (kv : KeyValues) (backwards : Bool) (chunk pad_max : ℕ) (p : Processor R C)
      → padding_in_range R C d kv backwards chunk pad_max ≡ ok (some p)
      → InRange p.codec
  unfolding padding_in_range new_padding
  in_range d kv b chunk pad_max p e = elim (Bool-cases (ltb u32_max chunk || ltb u32_max pad_max)) [
    | inl large ↦ absurd (cc (rw (large, padding_in_range) at e))
    | inr fits ↦
        let (seed, es, e') =
          >>=-eq-ok (padding_seed R C d (lookup (codes "seed") kv)) _ (rw fits at e) in
        subst IsInRange (some_inj (ok_injective e')) (ground arith)
  ]

  padding_InRange :
      (d : Draws C) (kv : KeyValues) (backwards : Bool) (chunk pad_max : Option ByteVector)
      (p : Processor R C)
      → padding_of R C d kv backwards chunk pad_max ≡ ok (some p)
      → InRange p.codec
  unfolding padding_of
  padding_InRange d kv b (some c) (some m) p e =
      let (chunk, ec, e₁) = >>=-eq-ok (stoull c) _ e in
      let (pad_max, em, e₂) = >>=-eq-ok (stoull m) _ e₁ in in_range d kv b chunk pad_max p e₂
  padding_InRange d kv b _ _ p e = absurd (cc)

  cfb_InRange :
      (kv : KeyValues) (backwards : Bool) (found : Option ByteVector) (p : Processor R C)
      → cfb_of R C kv backwards found ≡ some p
      → InRange p.codec
  unfolding cfb_of
  cfb_InRange kv b none p e = absurd (cc)
  cfb_InRange kv b (some key) p e = subst IsInRange (some_inj e) tt

  cfb_nonce_InRange :
      (d : Draws C) (kv : KeyValues) (backwards : Bool) (iv key : Option ByteVector)
      (p : Processor R C)
      → cfb_nonce_of R C d kv backwards iv key ≡ some p
      → InRange p.codec
  unfolding cfb_nonce_of
  cfb_nonce_InRange d kv b (some (c ∷ iv)) (some (k ∷ key)) p e = subst IsInRange (some_inj e) tt
  cfb_nonce_InRange d kv b _ _ p e = absurd (cc)

  branch-InRange :
      (d : Draws C) (kv : KeyValues) (backwards is_identity is_cfb is_cfb_nonce is_padding : Bool)
      (p : Processor R C)
      → branch R C d kv backwards is_identity is_cfb is_cfb_nonce is_padding ≡ ok (some p)
      → InRange p.codec
  unfolding branch build_cfb build_cfb_nonce build_padding
  branch-InRange d kv b true _ _ _ p e = subst IsInRange (some_inj (ok_injective e)) tt
  branch-InRange d kv b false true _ _ p e =
      cfb_InRange kv b (lookup (codes "key") kv) p (ok_injective e)
  branch-InRange d kv b false false true _ p e =
      cfb_nonce_InRange d kv b (lookup (codes "iv") kv) (lookup (codes "hmac_key") kv) p
        (ok_injective e)
  branch-InRange d kv b false false false true p e =
      padding_InRange d kv b (lookup (codes "chunk") kv) (lookup (codes "max") kv) p e
  branch-InRange d kv b false false false false p e = absurd (cc)

  built_InRange :
      (d : Draws C) (spec : ByteVector) (backwards : Bool) (p : Processor R C)
      → build_one R C d spec backwards ≡ ok (some p)
      → InRange p.codec
  unfolding build_one build_named
  built_InRange d spec b p e =
      branch-InRange d (parse_kv (spec_args spec)) b (same (spec_name spec) (codes "identity"))
        (same (spec_name spec) (codes "cfb")) (same (spec_name spec) (codes "cfb_nonce"))
        (same (spec_name spec) (codes "padding")) p e

  module _ (draws : ℕ → Draws C) (backwards : Bool) where
    loop_InRange :
        (specs : List ByteVector) (chain : ProcessorChain R C) (i : ℕ) (whole : ProcessorChain R C)
        → build_loop R C draws chain i specs backwards ≡ ok (some whole)
        → All IsInRange chain
        → All IsInRange whole
    unfolding build_loop add
    loop_InRange [] chain i whole e all = subst (All IsInRange) (some_inj (ok_injective e)) all
    loop_InRange (spec ∷ specs) chain i whole e all =
        let (built, eb, e') = >>=-eq-ok (build_one R C (draws i) spec backwards) _ e in
        next built eb e' (loop_InRange specs)
      where
        next :
            (built : Option (Processor R C))
            → build_one R C (draws i) spec backwards ≡ ok built
            → ◌≡◌ {A = Result (Option (ProcessorChain R C))}
                (elim built [
                  | none ↦ ok none
                  | some p ↦ build_loop R C draws (add R C chain p) (suc i) specs backwards
                ])
                (ok (some whole))
            → ((chain' : ProcessorChain R C) (j : ℕ) (whole' : ProcessorChain R C)
                → build_loop R C draws chain' j specs backwards ≡ ok (some whole')
                → All IsInRange chain'
                → All IsInRange whole')
            → All IsInRange whole
        next none eb e' ih = absurd (cc)
        next (some p) eb e' ih = ih (chain ++ p ∷ []) (suc i) whole e' (
            All-append IsInRange chain (p ∷ []) all
              (built_InRange (draws i) spec backwards p eb, tt))

    -- In a chain that was built the chunk size and the largest padding of every padding processor
    -- fit into 32 bits, so that the lengths in a frame header are not cut.
    pub chain_InRange :
        (specs : List ByteVector) (ps : ProcessorChain R C)
        → build_processor_chain R C draws specs backwards ≡ ok (some ps)
        → All IsInRange ps
    unfolding build_processor_chain add
    chain_InRange [] ps e = subst (All IsInRange) (some_inj (ok_injective e)) (tt, tt)
    chain_InRange (spec ∷ specs) ps e =
        loop_InRange (if backwards then reverse (spec ∷ specs) else spec ∷ specs) [] 0 ps e tt
