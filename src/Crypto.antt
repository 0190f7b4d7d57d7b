-- ===== src/Crypto.antt =====
-- What the nonce handshake uses of OpenSSL: `RAND_bytes`, `HMAC` with SHA-256, and SHA-512.
use msg.Prelude.{ℕ, ◌≡◌, Bool, Option, some, length}
use msg.Bytes.{ByteVector}

pub record Crypto : Type 1 where
  -- the random generator's state, which each call of `RAND_bytes` moves on
  pub Entropy : Type 0
  -- `none` is a result other than 1
  pub rand_bytes : ℕ → Entropy → Option ByteVector × Entropy
  -- `RAND_bytes` fills the whole buffer that it is given
  pub rand_bytes_length :
      (n : ℕ) (e : Entropy) (bytes : ByteVector)
      → (rand_bytes n e).0 ≡ some bytes
      → length bytes ≡ n
  -- the code of `key` and `data`, `none` for a null result
  pub hmac : ByteVector → ByteVector → Option ByteVector
  -- whether `EVP_MD_CTX_new` gives a context
  pub has_context : Bool
  -- the digest by init, update and final, `none` where one of these fails
  pub sha512 : ByteVector → Option ByteVector
