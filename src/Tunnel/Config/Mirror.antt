-- ===== src/Tunnel/Config/Mirror.antt =====
-- The chain of the exit node is the mirror of the entry node's chain: the same specifications with
-- `--reverse=1` give the same kinds of processors in the opposite order and role.
use mathlib.Core.List.{reverse-reverse}
use msg.Prelude.{
  ℕ, suc, ◌<◌, ◌^◌, ◌≡◌, refl, sym, ap, ◌∙◌, subst, inl, inr, Bool, true, false, ◌||◌, Option, none,
  some, List, [], ◌∷◌, ◌++◌, reverse, All, All-reverse, Pairs, Pairs-reverse, append_assoc,
  append-nil, ltb, Bool-cases, Result, ok, ok_injective, some_inj, >>=-eq-ok, ◌>>=◌, arith,
}
use msg.Bytes.{ByteVector}
use msg.Bytes.Equal.{same}
use msg.Random.{Random}
use msg.Crypto.{Crypto}
use msg.Tunnel.Text.{codes, stoull}
use msg.Tunnel.Stream.Pipeline.{LinkedAll}
use msg.Tunnel.Cfb.{new_cfb}
use msg.Tunnel.Nonce.{new_cfb_nonce}
use msg.Tunnel.Cfb.Linked.{new_cfb-Linked}
use msg.Tunnel.Nonce.Linked.{new_cfb_nonce-Linked}
use msg.Tunnel.Padding.{new_padding}
use msg.Tunnel.Padding.Linked.{new_padding-Linked}
use msg.Tunnel.Processor.{Codec, Processor, identity, cfb, cfb_nonce, padding}
use msg.Tunnel.Processor.Linked as Codecs
use msg.Tunnel.Processor.Roles.{Role}
use msg.Tunnel.Processor.Roles as Roles
use msg.Tunnel.Chain.{ProcessorChain, add}
use msg.Tunnel.Chain.Linked as Chains
use msg.Tunnel.Config.{
  KeyValues, Draws, lookup, resolve_processor_reverse, u32_max, spec_name, spec_args, parse_kv,
  build_cfb, cfb_of, reverse_of, cfb_nonce_of, build_cfb_nonce, padding_seed, padding_in_range,
  padding_of, build_padding, branch, build_named, build_one, build_loop, build_processor_chain,
}

-- With the global flag the flag is set, whatever the arguments say.
reverse_of_global : (v : Option ByteVector) → reverse_of true v ≡ true
unfolding reverse_of
reverse_of_global none = refl
reverse_of_global (some v) = refl

pub resolve_global : (kv : KeyValues) → resolve_processor_reverse kv true ≡ true
unfolding resolve_processor_reverse
resolve_global kv = reverse_of_global (lookup (codes "reverse") kv)

module _ (R : Random) (C : Crypto) where
  abbrev pub HasChunk : Codec R C → Type 0
  HasChunk (padding p) = 0 < p.chunk_size
  HasChunk identity = Unit
  HasChunk (cfb c) = Unit
  HasChunk (cfb_nonce c) = Unit

  -- What the entry node's processors have to be: no `reverse=1` of their own, no `chunk=0`.
  abbrev pub IsForward : Processor R C → Type 0
  IsForward p = Role R C false p × HasChunk p.codec

  -- Counterparts that have sent nothing yet, for both directions.
  abbrev pub Counterparts : Processor R C → Processor R C → Type 0
  Counterparts p q = Roles.Outbound R C p q [] [] × Roles.Inbound R C q p [] []

  -- A codec and a counterpart's codec that start in step both ways.
  counterparts :
      (p : Processor R C) (c : Codec R C) (b : Bool)
      → Role R C false p
      → b ≡ true
      → Codecs.Linked R C p.codec c [] []
      → Codecs.Linked R C c p.codec [] []
      → Counterparts p (record { codec = c; reverse = b })
  counterparts p c b role flag there back = (
    record { packs = role; unpacks = inr flag; linked = there },
    record { packs = inr flag; unpacks = role; linked = back },
  )

  cfb_counterpart :
      (kv : KeyValues) (found : Option ByteVector) (p : Processor R C)
      → cfb_of R C kv false found ≡ some p
      → IsForward p
      → (q : Processor R C) × (cfb_of R C kv true found ≡ some q) × Counterparts p q
  unfolding cfb_of
  cfb_counterpart kv none p e f = absurd (cc)
  cfb_counterpart kv (some key) p e f =
      let c = cfb (new_cfb key) in
      let codec : c ≡ p.codec = ap (λ (o : Processor R C). o.codec) (some_inj e) in
      (
        record { codec = c; reverse = resolve_processor_reverse kv true },
        refl,
        counterparts p c (resolve_processor_reverse kv true) f.0 (resolve_global kv)
            (subst (λ d. Codecs.Linked R C d c [] []) codec (new_cfb-Linked key))
            (subst (λ d. Codecs.Linked R C c d [] []) codec (new_cfb-Linked key)),
      )

  cfb_nonce_counterpart :
      (d d' : Draws C) (kv : KeyValues) (iv key : Option ByteVector) (p : Processor R C)
      → cfb_nonce_of R C d kv false iv key ≡ some p
      → IsForward p
      → (q : Processor R C) × (cfb_nonce_of R C d' kv true iv key ≡ some q) × Counterparts p q
  unfolding cfb_nonce_of
  cfb_nonce_counterpart d d' kv (some (b ∷ iv)) (some (k ∷ key)) p e f =
      let c = cfb_nonce (new_cfb_nonce C (b ∷ iv) (k ∷ key) d'.entropy) in
      let codec : cfb_nonce (new_cfb_nonce C (b ∷ iv) (k ∷ key) d.entropy) ≡ p.codec =
        ap (λ (o : Processor R C). o.codec) (some_inj e) in
      (
        record { codec = c; reverse = resolve_processor_reverse kv true },
        refl,
        counterparts p c (resolve_processor_reverse kv true) f.0 (resolve_global kv)
            (subst (λ t. Codecs.Linked R C t c [] []) codec
              (new_cfb_nonce-Linked C (b ∷ iv) (k ∷ key) d.entropy d'.entropy))
            (subst (λ t. Codecs.Linked R C c t [] []) codec
              (new_cfb_nonce-Linked C (b ∷ iv) (k ∷ key) d'.entropy d.entropy)),
      )
  cfb_nonce_counterpart d d' kv _ _ p e f = absurd (cc)

  seed_again :
      (d d' : Draws C) (found : Option ByteVector) (seed : ℕ)
      → padding_seed R C d found ≡ ok seed
      → (seed' : ℕ) × (padding_seed R C d' found ≡ ok seed')
  unfolding padding_seed
  seed_again d d' none seed e = (_, refl)
  seed_again d d' (some s) seed e = (seed, e)

  padding_in_range_counterpart :
      (d d' : Draws C) (kv : KeyValues) (chunk pad_max : ℕ) (p : Processor R C)
      → padding_in_range R C d kv false chunk pad_max ≡ ok (some p)
      → IsForward p
      → (q : Processor R C) × (padding_in_range R C d' kv true chunk pad_max ≡ ok (some q))
        × Counterparts p q
  unfolding padding_in_range new_padding
  padding_in_range_counterpart d d' kv chunk pad_max p e f =
      elim (Bool-cases (ltb u32_max chunk || ltb u32_max pad_max)) [
        | inl large ↦ absurd (cc (rw (large, padding_in_range) at e))
        | inr fits ↦
            let (seed, es, e') =
              >>=-eq-ok (padding_seed R C d (lookup (codes "seed") kv)) _
                (sym (passes fits d false) ∙ e) in
            let (seed', es') = seed_again d d' (lookup (codes "seed") kv) seed es in
            let r = resolve_processor_reverse kv false in
            let r' = resolve_processor_reverse kv true in
            let codec : padding (new_padding R chunk pad_max seed r) ≡ p.codec =
              ap (λ (o : Processor R C). o.codec) (some_inj (ok_injective e')) in
            let chunk_pos : 0 < chunk = subst HasChunk (sym codec) f.1 in
            let c = padding (new_padding R chunk pad_max seed' r') in
            (
              record { codec = c; reverse = r' },
              passes fits d' true ∙ rw es',
              counterparts p c r' f.0 (resolve_global kv)
                  (subst (λ t. Codecs.Linked R C t c [] []) codec
                    (new_padding-Linked R chunk pad_max seed seed' r r' chunk_pos (small fits).0
                      (small fits).1))
                  (subst (λ t. Codecs.Linked R C c t [] []) codec
                    (new_padding-Linked R chunk pad_max seed' seed r' r chunk_pos (small fits).0
                      (small fits).1)),
            )
      ]
    where
      small :
          (ltb u32_max chunk || ltb u32_max pad_max) ≡ false → (chunk < 2 ^ 32) × (pad_max < 2 ^ 32)
      small h = ground arith

      passes :
          (ltb u32_max chunk || ltb u32_max pad_max) ≡ false
          → (draw : Draws C) (b : Bool)
          → padding_in_range R C draw kv b chunk pad_max ≡ (
              padding_seed R C draw (lookup (codes "seed") kv) >>= λ seed. ok (
                some (record {
                  codec =
                      padding (new_padding R chunk pad_max seed (resolve_processor_reverse kv b));
                  reverse = resolve_processor_reverse kv b;
                })))
      passes h draw b = rw h

  padding_counterpart :
      (d d' : Draws C) (kv : KeyValues) (chunk pad_max : Option ByteVector) (p : Processor R C)
      → padding_of R C d kv false chunk pad_max ≡ ok (some p)
      → IsForward p
      → (q : Processor R C) × (padding_of R C d' kv true chunk pad_max ≡ ok (some q))
        × Counterparts p q
  unfolding padding_of
  padding_counterpart d d' kv (some c) (some m) p e f =
      let (chunk, ec, e₁) = >>=-eq-ok (stoull c) _ e in
      let (pad_max, em, e₂) = >>=-eq-ok (stoull m) _ e₁ in
      let (q, eq, both) = padding_in_range_counterpart d d' kv chunk pad_max p e₂ f in
      (q, rw (ec, em) eq, both)
  padding_counterpart d d' kv _ _ p e f = absurd (cc)

  identity_counterpart :
      (p : Processor R C)
      → record { codec = identity; reverse = false } ≡ p
      → Counterparts p (record { codec = identity; reverse = false })
  identity_counterpart p e =
      subst (λ p. Counterparts p (record { codec = identity; reverse = false })) e
        (
          record { packs = inl refl; unpacks = inl refl; linked = refl },
          record { packs = inl refl; unpacks = inl refl; linked = refl },
        )

  -- The branches on the name, whichever test passes.
  branch_counterpart :
      (d d' : Draws C) (kv : KeyValues) (is_identity is_cfb is_cfb_nonce is_padding : Bool)
      (p : Processor R C)
      → branch R C d kv false is_identity is_cfb is_cfb_nonce is_padding ≡ ok (some p)
      → IsForward p
      → (q : Processor R C) × (branch R C d' kv true is_identity is_cfb is_cfb_nonce is_padding
          ≡ ok (some q))
        × Counterparts p q
  unfolding branch build_cfb build_cfb_nonce build_padding
  branch_counterpart d d' kv true _ _ _ p e f = (
    record { codec = identity; reverse = false },
    refl,
    identity_counterpart p (some_inj (ok_injective e)),
  )
  branch_counterpart d d' kv false true _ _ p e f =
      let (q, eq, both) = cfb_counterpart kv (lookup (codes "key") kv) p (ok_injective e) f in
      (q, ap ok eq, both)
  branch_counterpart d d' kv false false true _ p e f =
      let (q, eq, both) =
        cfb_nonce_counterpart d d' kv (lookup (codes "iv") kv) (lookup (codes "hmac_key") kv) p
          (ok_injective e) f in
      (q, ap ok eq, both)
  branch_counterpart d d' kv false false false true p e f =
      padding_counterpart d d' kv (lookup (codes "chunk") kv) (lookup (codes "max") kv) p e f
  branch_counterpart d d' kv false false false false p e f = absurd (cc)

  one_counterpart :
      (d d' : Draws C) (spec : ByteVector) (p : Processor R C)
      → build_one R C d spec false ≡ ok (some p)
      → IsForward p
      → (q : Processor R C) × (build_one R C d' spec true ≡ ok (some q)) × Counterparts p q
  unfolding build_one build_named
  one_counterpart d d' spec p e f =
      branch_counterpart d d' (parse_kv (spec_args spec)) (same (spec_name spec) (codes "identity"))
        (same (spec_name spec) (codes "cfb")) (same (spec_name spec) (codes "cfb_nonce"))
        (same (spec_name spec) (codes "padding")) p e f

  -- A specification and the processor that the entry node builds from it.
  abbrev Builds : ByteVector → Processor R C → Type 0
  Builds spec p = (d : Draws C) × (build_one R C d spec false ≡ ok (some p))

  module _ (draws : ℕ → Draws C) where
    loop-Builds :
        (specs : List ByteVector) (chain : ProcessorChain R C) (i : ℕ) (whole : ProcessorChain R C)
        → build_loop R C draws chain i specs false ≡ ok (some whole)
        → (ps : ProcessorChain R C) × (whole ≡ chain ++ ps) × Pairs Builds specs ps
    unfolding build_loop add
    loop-Builds [] chain i whole e =
        ([], sym (some_inj (ok_injective e)) ∙ sym (append-nil chain), tt)
    loop-Builds (spec ∷ specs) chain i whole e =
        let (built, eb, e') = >>=-eq-ok (build_one R C (draws i) spec false) _ e in
        go built eb e' (loop-Builds specs)
      where
        go :
            (built : Option (Processor R C))
            → build_one R C (draws i) spec false ≡ ok built
            → ◌≡◌ {A = Result (Option (ProcessorChain R C))}
                (elim built [
                  | none ↦ ok none
                  | some p ↦ build_loop R C draws (add R C chain p) (suc i) specs false
                ])
                (ok (some whole))
            → ((chain' : ProcessorChain R C) (j : ℕ) (whole' : ProcessorChain R C)
                → build_loop R C draws chain' j specs false ≡ ok (some whole')
                → (ps : ProcessorChain R C) × (whole' ≡ chain' ++ ps) × Pairs Builds specs ps)
            → (ps : ProcessorChain R C) × (whole ≡ chain ++ ps) × Pairs Builds (spec ∷ specs) ps
        go none eb e' ih = absurd (cc)
        go (some p) eb e' ih =
            let (ps, w, bs) = ih (chain ++ p ∷ []) (suc i) whole e' in
            (p ∷ ps, w ∙ append_assoc chain (p ∷ []) ps, ((draws i, eb), bs))

    loop-Counterparts :
        (specs : List ByteVector) (ps chain : ProcessorChain R C) (i : ℕ)
        → Pairs Builds specs ps
        → All IsForward ps
        → (qs : ProcessorChain R C) × (build_loop R C draws chain i specs true
            ≡ ok (some (chain ++ qs)))
          × Pairs Counterparts ps qs
    unfolding build_loop add
    loop-Counterparts [] [] chain i b f = ([], ap (λ c. ok (some c)) (sym (append-nil chain)), tt)
    loop-Counterparts [] (p ∷ ps) chain i b f = absurd b
    loop-Counterparts (s ∷ specs) [] chain i b f = absurd b
    loop-Counterparts (s ∷ specs) (p ∷ ps) chain i ((d, built), bs) (f, fs) =
        let (q, eq, both) = one_counterpart d (draws i) s p built f in
        let (qs, e, pairs) = loop-Counterparts specs ps (chain ++ q ∷ []) (suc i) bs fs in
        (q ∷ qs, rw eq (e ∙ ap (λ c. ok (some c)) (append_assoc chain (q ∷ []) qs)), (both, pairs))

  Outbound-Pairs :
      (ps qs : ProcessorChain R C)
      → Pairs Counterparts ps qs
      → LinkedAll (Roles.Outbound R C) ps qs [] []
  Outbound-Pairs [] [] h = refl
  Outbound-Pairs [] (q ∷ qs) h = absurd h
  Outbound-Pairs (p ∷ ps) [] h = absurd h
  Outbound-Pairs (p ∷ ps) (q ∷ qs) h = ([], h.0.0, Outbound-Pairs ps qs h.1)

  Inbound-Pairs :
      (ps qs : ProcessorChain R C)
      → Pairs Counterparts ps qs
      → LinkedAll (Roles.Inbound R C) qs ps [] []
  Inbound-Pairs [] [] h = refl
  Inbound-Pairs [] (q ∷ qs) h = absurd h
  Inbound-Pairs (p ∷ ps) [] h = absurd h
  Inbound-Pairs (p ∷ ps) (q ∷ qs) h = ([], h.0.1, Inbound-Pairs ps qs h.1)

  -- The entry node has built its chain from a list of specifications without the global reverse
  -- flag, and none of its processors has the flag from an argument of its own or a chunk size of 0.
  -- Then the exit node, with the flag and draws of its own, builds a chain too, and the two chains
  -- start in step in both directions.
  pub mirrored :
      (draws draws' : ℕ → Draws C) (specs : List ByteVector) (ps : ProcessorChain R C)
      → build_processor_chain R C draws specs false ≡ ok (some ps)
      → All IsForward ps
      → (qs : ProcessorChain R C) × (build_processor_chain R C draws' specs true ≡ ok (some qs))
        × Chains.Outbound R C ps qs [] []
        × Chains.Inbound R C qs ps [] []
  unfolding build_processor_chain add
  mirrored draws draws' [] ps e f =
      let single : ps ≡ (record { codec = identity; reverse = false }) ∷ [] =
        sym (some_inj (ok_injective e)) in
      let both = identity_counterpart (record { codec = identity; reverse = false }) refl in
      (
        (record { codec = identity; reverse = false }) ∷ [],
        refl,
        subst
            (λ c. Chains.Outbound R C c ((record { codec = identity; reverse = false }) ∷ []) [] [])
            (sym single) ([], both.0, refl),
        subst
            (λ c. Chains.Inbound R C ((record { codec = identity; reverse = false }) ∷ []) c [] [])
            (sym single) ([], both.1, refl),
      )
  mirrored draws draws' (spec ∷ specs) ps e f =
      let (ps', same_ps, builds) = loop-Builds draws (spec ∷ specs) [] 0 ps e in
      let all_build = subst (Pairs Builds (spec ∷ specs)) (sym same_ps) builds in
      let (qs, e', pairs) =
        loop-Counterparts draws' (reverse (spec ∷ specs)) (reverse ps) [] 0
          (Pairs-reverse Builds (spec ∷ specs) ps all_build) (All-reverse IsForward ps f) in
      let turned : Pairs Counterparts ps (reverse qs) =
        subst (λ c. Pairs Counterparts c (reverse qs)) (reverse-reverse ps)
          (Pairs-reverse Counterparts (reverse ps) qs pairs) in
      (qs, e', Outbound-Pairs ps (reverse qs) turned, Inbound-Pairs ps (reverse qs) turned)
