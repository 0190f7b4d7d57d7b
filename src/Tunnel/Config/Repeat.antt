-- ===== src/Tunnel/Config/Repeat.antt =====
-- What `build_processor_chain` comes to does not depend on what its processors draw.
use msg.Prelude.{
  ℕ, suc, ◌≡◌, refl, Bool, true, false, ◌||◌, Option, none, some, List, [], ◌∷◌, reverse, ltb,
  if◌then◌else◌, inl, inr, Bool-cases, Result, ok, throws, diverges, ◌>>=◌,
}
use msg.Bytes.{ByteVector}
use msg.Bytes.Equal.{same}
use msg.Random.{Random}
use msg.Crypto.{Crypto}
use msg.Tunnel.Text.{codes, stoull}
use msg.Tunnel.Chain.{ProcessorChain, add}
use msg.Tunnel.Config.{
  KeyValues, Draws, lookup, u32_max, spec_name, spec_args, parse_kv, build_cfb, cfb_of,
  cfb_nonce_of, build_cfb_nonce, padding_seed, padding_in_range, padding_of, build_padding, branch,
  build_named, build_one, build_loop, build_processor_chain,
}

-- Both have a value, both are refused, or both throw the same.
abbrev pub SameOutcome : {A : Type 0} → Result (Option A) → Result (Option A) → Type 0
SameOutcome (ok none) (ok none) = Unit
SameOutcome (ok (some a)) (ok (some b)) = Unit
SameOutcome (throws e) (throws f) = e ≡ f
SameOutcome diverges diverges = Unit
SameOutcome _ _ = ⊥

same_bind :
    {A B : Type 0} (m : Result A) (f g : A → Result (Option B))
    → ((a : A) → SameOutcome (f a) (g a))
    → SameOutcome (m >>= f) (m >>= g)
same_bind (ok a) f g h = h a
same_bind (throws e) f g h = refl
same_bind diverges f g h = tt

same_next :
    {A B : Type 0} (m m' : Result (Option A)) (f g : A → Result (Option B))
    → SameOutcome m m'
    → ((a b : A) → SameOutcome (f a) (g b))
    → SameOutcome
        (m >>= λ built. elim built [ none ↦ ok none | some a ↦ f a ])
        (m' >>= λ built. elim built [ none ↦ ok none | some a ↦ g a ])
same_next (ok none) (ok none) f g h k = tt
same_next (ok (some a)) (ok (some b)) f g h k = k a b
same_next (throws e) (throws e') f g h k = h
same_next diverges diverges f g h k = tt
same_next m m' f g h k = absurd h

module _ (R : Random) (C : Crypto) where
  seed_same :
      {B : Type 0} (d d' : Draws C) (found : Option ByteVector) (f g : ℕ → Result (Option B))
      → ((a b : ℕ) → SameOutcome (f a) (g b))
      → SameOutcome (padding_seed R C d found >>= f) (padding_seed R C d' found >>= g)
  unfolding padding_seed
  seed_same d d' (some s) f g h = same_bind (stoull s) f g (λ a. h a a)
  seed_same d d' none f g h = h _ _

  in_range_same :
      (d d' : Draws C) (kv : KeyValues) (backwards : Bool) (chunk pad_max : ℕ)
      → SameOutcome
          (padding_in_range R C d kv backwards chunk pad_max)
          (padding_in_range R C d' kv backwards chunk pad_max)
  unfolding padding_in_range
  in_range_same d d' kv b chunk pad_max =
      elim (Bool-cases (ltb u32_max chunk || ltb u32_max pad_max)) [
        | inl large ↦ rw large tt
        | inr fits ↦ rw fits (seed_same d d' (lookup (codes "seed") kv) _ _ (λ a b. tt))
      ]

  padding_same :
      (d d' : Draws C) (kv : KeyValues) (backwards : Bool) (chunk pad_max : Option ByteVector)
      → SameOutcome
          (padding_of R C d kv backwards chunk pad_max)
          (padding_of R C d' kv backwards chunk pad_max)
  unfolding padding_of
  padding_same d d' kv b (some c) (some m) =
      same_bind (stoull c) _ _
        (λ chunk. same_bind (stoull m) _ _ (λ pad_max. in_range_same d d' kv b chunk pad_max))
  padding_same d d' kv b (some c) none = tt
  padding_same d d' kv b none m = tt

  nonce_same :
      (d d' : Draws C) (kv : KeyValues) (backwards : Bool) (iv key : Option ByteVector)
      → SameOutcome
          (ok (cfb_nonce_of R C d kv backwards iv key))
          (ok (cfb_nonce_of R C d' kv backwards iv key))
  unfolding cfb_nonce_of
  nonce_same d d' kv b (some (c ∷ iv)) (some (k ∷ key)) = tt
  nonce_same d d' kv b (some (c ∷ iv)) (some []) = tt
  nonce_same d d' kv b (some (c ∷ iv)) none = tt
  nonce_same d d' kv b (some []) key = tt
  nonce_same d d' kv b none key = tt

  itself : {A : Type 0} (o : Option A) → SameOutcome (ok o) (ok o)
  itself none = tt
  itself (some a) = tt

  branch_same :
      (d d' : Draws C) (kv : KeyValues)
      (backwards is_identity is_cfb is_cfb_nonce is_padding : Bool)
      → SameOutcome
          (branch R C d kv backwards is_identity is_cfb is_cfb_nonce is_padding)
          (branch R C d' kv backwards is_identity is_cfb is_cfb_nonce is_padding)
  unfolding branch build_cfb build_cfb_nonce build_padding
  branch_same d d' kv b true _ _ _ = tt
  branch_same d d' kv b false true _ _ = itself (cfb_of R C kv b (lookup (codes "key") kv))
  branch_same d d' kv b false false true _ =
      nonce_same d d' kv b (lookup (codes "iv") kv) (lookup (codes "hmac_key") kv)
  branch_same d d' kv b false false false true =
      padding_same d d' kv b (lookup (codes "chunk") kv) (lookup (codes "max") kv)
  branch_same d d' kv b false false false false = tt

  one_same :
      (d d' : Draws C) (spec : ByteVector) (backwards : Bool)
      → SameOutcome (build_one R C d spec backwards) (build_one R C d' spec backwards)
  unfolding build_one build_named
  one_same d d' spec b =
      branch_same d d' (parse_kv (spec_args spec)) b (same (spec_name spec) (codes "identity"))
        (same (spec_name spec) (codes "cfb")) (same (spec_name spec) (codes "cfb_nonce"))
        (same (spec_name spec) (codes "padding"))

  module _ (draws draws' : ℕ → Draws C) (backwards : Bool) where
    loop_same :
        (specs : List ByteVector) (chain chain' : ProcessorChain R C) (i : ℕ)
        → SameOutcome
            (build_loop R C draws chain i specs backwards)
            (build_loop R C draws' chain' i specs backwards)
    unfolding build_loop
    loop_same [] chain chain' i = tt
    loop_same (spec ∷ specs) chain chain' i =
        same_next (build_one R C (draws i) spec backwards) (build_one R C (draws' i) spec backwards)
          _ _ (one_same (draws i) (draws' i) spec backwards)
          (λ p q. loop_same specs (add R C chain p) (add R C chain' q) (suc i))

    -- The same specifications are built, refused or answered by the same exception, whatever the
    -- clock, the random device and OpenSSL's generator give.
    pub chain-SameOutcome :
        (specs : List ByteVector)
        → SameOutcome
            (build_processor_chain R C draws specs backwards)
            (build_processor_chain R C draws' specs backwards)
    unfolding build_processor_chain
    chain-SameOutcome [] = tt
    chain-SameOutcome (spec ∷ specs) =
        loop_same (if backwards then reverse (spec ∷ specs) else spec ∷ specs) [] [] 0
