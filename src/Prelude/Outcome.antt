-- ===== src/Prelude/Outcome.antt =====
-- Results of code that may throw, or that may loop for ever.
use mathlib.Core.Path.{◌≡◌, refl}

-- The exceptions that the modelled code throws itself or lets through.
pub data Exception : Type 0 where
  invalid_padding_frame_header invalid_padding_frame_length : Exception
  hmac_key_too_large hmac_failed hmac_mismatch : Exception
  digest_context_failed digest_failed nonce_failed : Exception
  invalid_argument out_of_range : Exception
  stream_ended system_error : Exception

-- `diverges` says that a loop was not over when its fuel ran out.
pub data Result {ℓ} (A : Type ℓ) : Type ℓ where
  ok : A → Result A
  throws : Exception → Result A
  diverges : Result A

infixl 5 ◌>>=◌
abbrev pub ◌>>=◌ {ℓ κ} : {A : Type ℓ} {B : Type κ} → Result A → (A → Result B) → Result B
diverges >>= next = diverges
throws e >>= next = throws e
ok a >>= next = next a

-- Inversion of a successful bind.
pub >>=-eq-ok {ℓ κ} :
    {A : Type ℓ} {B : Type κ} (first : Result A) (next : A → Result B) {last : B}
    → (first >>= next) ≡ ok last
    → (between : A) × (first ≡ ok between) × (next between ≡ ok last)
>>=-eq-ok diverges next e = cc
>>=-eq-ok (throws x) next e = cc
>>=-eq-ok (ok between) next e = (between, refl, e)

pub ok_inj {ℓ κ} :
    {A : Type ℓ} {B : Type κ} {a a' : A} {b b' : B}
    → ◌≡◌ {A = Result (A × B)} (ok (a, b)) (ok (a', b'))
    → (a ≡ a') × (b ≡ b')
ok_inj e = (cc, cc)

pub ok_injective {ℓ} : {A : Type ℓ} {a b : A} → ok a ≡ ok b → a ≡ b
ok_injective e = cc

pub >>=_assoc {ℓ κ μ} :
    {A : Type ℓ} {B : Type κ} {D : Type μ} (m : Result A) (f : A → Result B) (g : B → Result D)
    → ((m >>= f) >>= g) ≡ (m >>= λ a. f a >>= g)
>>=_assoc (ok a) f g = refl
>>=_assoc (throws e) f g = refl
>>=_assoc diverges f g = refl

pub >>=_ext {ℓ κ} :
    {A : Type ℓ} {B : Type κ} (m : Result A) (f g : A → Result B)
    → ((a : A) → f a ≡ g a)
    → (m >>= f) ≡ (m >>= g)
>>=_ext (ok a) f g h = h a
>>=_ext (throws e) f g h = refl
>>=_ext diverges f g h = refl
