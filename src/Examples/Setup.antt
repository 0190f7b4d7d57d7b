-- ===== src/Examples/Setup.antt =====
-- Libraries that meet their contracts, and a way to name the outcome of a run.
use msg.Prelude.{
  ℕ, zero, suc, ◌+◌, ◌≤◌, min, ◌≡◌, refl, sym, ap, ◌∙◌, true, Option, none, some, [], ◌∷◌, length,
  Result, ok, throws, diverges, some_inj, arith,
}
use msg.Bytes.{ByteVector}
use msg.Random.{Random}
use msg.Crypto.{Crypto}

abbrev pub replicate : ℕ → ℕ → ByteVector
replicate zero a = []
replicate (suc n) a = a ∷ replicate n a

length-replicate : (n a : ℕ) → length (replicate n a) ≡ n
length-replicate zero a = refl
length-replicate (suc n) a = ap suc (length-replicate n a)

pub min_below : (bound e : ℕ) → min bound e ≤ bound
min_below bound e = omega arith

-- An engine that counts, and draws its count where that is allowed.
abbrev pub counting : Random
counting = record {
  Engine = ℕ;
  engine = λ seed. seed;
  draw = λ bound e. (min bound e, e + 1);
  draw-le = min_below;
}

pub drawn_length :
    (n e : ℕ) (bytes : ByteVector) → some (replicate n e) ≡ some bytes → length bytes ≡ n
drawn_length n e bytes h = sym (ap length (some_inj h)) ∙ length-replicate n e

-- Codes and digests of the right sizes.
abbrev pub toy : Crypto
toy = record {
  Entropy = ℕ;
  rand_bytes = λ n e. (some (replicate n e), e + 1);
  rand_bytes_length = drawn_length;
  hmac = λ key bytes. some (replicate 32 (length key));
  has_context = true;
  sha512 = λ bytes. some (replicate 64 (length bytes));
}

abbrev pub value_or {ℓ} : {A : Type ℓ} → A → Result A → A
value_or d (ok a) = a
value_or d (throws e) = d
value_or d diverges = d

abbrev pub chain_or {ℓ} : {A : Type ℓ} → A → Result (Option A) → A
chain_or d (ok (some a)) = a
chain_or d (ok none) = d
chain_or d (throws e) = d
chain_or d diverges = d
