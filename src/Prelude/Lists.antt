-- ===== src/Prelude/Lists.antt =====
-- Lists measured and indexed by native numbers, under the library's names.
use Prim.Native.Nat.{ℕ, zero, suc, ◌+◌, ◌-◌, ◌≤◌, min}
use mathlib.Core.Path.{◌≡◌, refl, ap, sym, ◌∙◌}
use mathlib.Core.List.{List, [], ◌∷◌, ◌++◌, append_assoc, flatten, reverse, reverse-cons}
use native.Mathlib.Omega.{arith}

module _ {ℓ} {A : Type ℓ} where
  abbrev pub length : List A → ℕ
  length [] = 0
  length (x ∷ xs) = suc (length xs)

  abbrev pub get_or : List A → ℕ → A → A
  get_or [] i d = d
  get_or (x ∷ xs) zero d = x
  get_or (x ∷ xs) (suc i) d = get_or xs i d

  -- A write out of bounds changes nothing.
  abbrev pub set : List A → ℕ → A → List A
  set [] i v = []
  set (x ∷ xs) zero v = v ∷ xs
  set (x ∷ xs) (suc i) v = x ∷ set xs i v

  abbrev pub take : ℕ → List A → List A
  take zero xs = []
  take (suc n) [] = []
  take (suc n) (x ∷ xs) = x ∷ take n xs

  abbrev pub drop : ℕ → List A → List A
  drop zero xs = xs
  drop (suc n) [] = []
  drop (suc n) (x ∷ xs) = drop n xs

  pub length-append : (xs ys : List A) → length (xs ++ ys) ≡ length xs + length ys
  length-append [] ys = omega arith
  length-append (x ∷ xs) ys = omega (arith, length-append xs ys)

  pub length-set : (xs : List A) (i : ℕ) (v : A) → length (set xs i v) ≡ length xs
  length-set [] i v = refl
  length-set (x ∷ xs) zero v = refl
  length-set (x ∷ xs) (suc i) v = ap suc (length-set xs i v)

  pub take-append-drop : (n : ℕ) (xs : List A) → take n xs ++ drop n xs ≡ xs
  take-append-drop zero xs = refl
  take-append-drop (suc n) [] = refl
  take-append-drop (suc n) (x ∷ xs) = ap (◌∷◌ x) (take-append-drop n xs)

  pub length-take : (n : ℕ) (xs : List A) → length (take n xs) ≡ min n (length xs)
  length-take zero xs = omega arith
  length-take (suc n) [] = omega arith
  length-take (suc n) (x ∷ xs) = omega (arith, length-take n xs)

  pub length-drop : (n : ℕ) (xs : List A) → length (drop n xs) ≡ length xs - n
  length-drop zero xs = omega arith
  length-drop (suc n) [] = omega arith
  length-drop (suc n) (x ∷ xs) = omega (arith, length-drop n xs)

  pub take-append : (n : ℕ) (xs ys : List A) → length xs ≡ n → take n (xs ++ ys) ≡ xs
  take-append zero [] ys h = refl
  take-append zero (x ∷ xs) ys h = absurd (omega arith)
  take-append (suc n) [] ys h = absurd (omega arith)
  take-append (suc n) (x ∷ xs) ys h = ap (◌∷◌ x) (take-append n xs ys (omega arith))

  pub drop-append : (n : ℕ) (xs ys : List A) → length xs ≡ n → drop n (xs ++ ys) ≡ ys
  drop-append zero [] ys h = refl
  drop-append zero (x ∷ xs) ys h = absurd (omega arith)
  drop-append (suc n) [] ys h = absurd (omega arith)
  drop-append (suc n) (x ∷ xs) ys h = drop-append n xs ys (omega arith)

  drop-nil : (n : ℕ) → ◌≡◌ {A = List A} (drop n []) []
  drop-nil zero = refl
  drop-nil (suc n) = refl

  pub drop-add : (m n : ℕ) (xs : List A) → drop n (drop m xs) ≡ drop (m + n) xs
  drop-add zero n xs = ap (λ (k : ℕ). drop k xs) (omega arith)
  drop-add (suc m) n [] = drop-nil n ∙ sym (drop-nil (suc m + n))
  drop-add (suc m) n (x ∷ xs) =
      drop-add m n xs
      ∙ ap (λ (k : ℕ). drop k (x ∷ xs)) (let e : suc (m + n) ≡ suc m + n = omega arith in e)

  pub get_or-drop : (xs : List A) (m i : ℕ) (d : A) → get_or (drop m xs) i d ≡ get_or xs (m + i) d
  get_or-drop xs zero i d = ap (λ (k : ℕ). get_or xs k d) (let e : i ≡ zero + i = omega arith in e)
  get_or-drop [] (suc m) i d = refl
  get_or-drop (x ∷ xs) (suc m) i d =
      get_or-drop xs m i d
      ∙ ap (λ (k : ℕ). get_or (x ∷ xs) k d) (let e : suc (m + i) ≡ suc m + i = omega arith in e)

  pub drop_past : (m : ℕ) (xs : List A) → length xs ≤ m → drop m xs ≡ []
  drop_past zero [] h = refl
  drop_past zero (x ∷ xs) h = absurd (omega arith)
  drop_past (suc m) [] h = refl
  drop_past (suc m) (x ∷ xs) h = drop_past m xs (omega arith)

  -- A short prefix of a concatenation lies in the first part.
  pub split-append :
      (a b c d : List A)
      → a ++ b ≡ c ++ d
      → length a ≤ length c
      → (e : List A) × (c ≡ a ++ e) × (b ≡ e ++ d)
  split-append [] b c d p h = (c, refl, p)
  split-append (x ∷ a) b [] d p h = absurd (omega arith)
  split-append (x ∷ a) b (y ∷ c) d p h =
      let (e, q, r) = split-append a b c d (cc) (omega arith) in (e, cc, r)

  pub append_left_cancel : (a b c : List A) → a ++ b ≡ a ++ c → b ≡ c
  append_left_cancel [] b c p = p
  append_left_cancel (x ∷ a) b c p = append_left_cancel a b c (cc)

  pub flatten-append : (xs ys : List (List A)) → flatten (xs ++ ys) ≡ flatten xs ++ flatten ys
  unfolding flatten
  flatten-append [] ys = refl
  flatten-append (x ∷ xs) ys =
      ap (◌++◌ x) (flatten-append xs ys) ∙ sym (append_assoc x (flatten xs) (flatten ys))

-- A predicate by recursion computes to tuples, which the tactics read and build.
abbrev pub All {ℓ κ} : {A : Type ℓ} → (A → Type κ) → List A → Type κ
All Q [] = Unit
All Q (a ∷ rest) = Q a × All Q rest

pub All-append {ℓ κ} :
    {A : Type ℓ} (Q : A → Type κ) (front back : List A)
    → All Q front
    → All Q back
    → All Q (front ++ back)
All-append Q [] back _ all = all
All-append Q (a ∷ front) back (q, qs) all = (q, All-append Q front back qs all)

pub All-append_left {ℓ κ} :
    {A : Type ℓ} (Q : A → Type κ) (front back : List A) → All Q (front ++ back) → All Q front
All-append_left Q [] back _ = tt
All-append_left Q (a ∷ front) back (q, qs) = (q, All-append_left Q front back qs)

pub All-append_right {ℓ κ} :
    {A : Type ℓ} (Q : A → Type κ) (front back : List A) → All Q (front ++ back) → All Q back
All-append_right Q [] back all = all
All-append_right Q (a ∷ front) back (_, qs) = All-append_right Q front back qs

-- Two lists of one length whose members are related place by place.
abbrev pub Pairs : {A B : Type 0} → (A → B → Type 0) → List A → List B → Type 0
Pairs Q [] [] = Unit
Pairs Q [] (y ∷ ys) = ⊥
Pairs Q (x ∷ xs) [] = ⊥
Pairs Q (x ∷ xs) (y ∷ ys) = Q x y × Pairs Q xs ys

module _ {A B : Type 0} (Q : A → B → Type 0) where
  pub Pairs-append :
      (xs : List A) (ys : List B) (xs' : List A) (ys' : List B)
      → Pairs Q xs ys
      → Pairs Q xs' ys'
      → Pairs Q (xs ++ xs') (ys ++ ys')
  Pairs-append [] [] xs' ys' h h' = h'
  Pairs-append [] (y ∷ ys) xs' ys' h h' = absurd h
  Pairs-append (x ∷ xs) [] xs' ys' h h' = absurd h
  Pairs-append (x ∷ xs) (y ∷ ys) xs' ys' h h' = (h.0, Pairs-append xs ys xs' ys' h.1 h')

  pub Pairs-reverse :
      (xs : List A) (ys : List B) → Pairs Q xs ys → Pairs Q (reverse xs) (reverse ys)
  Pairs-reverse [] [] h = tt
  Pairs-reverse [] (y ∷ ys) h = absurd h
  Pairs-reverse (x ∷ xs) [] h = absurd h
  Pairs-reverse (x ∷ xs) (y ∷ ys) h =
      rw (reverse-cons x xs, reverse-cons y ys)
        (Pairs-append (reverse xs) (reverse ys) (x ∷ []) (y ∷ []) (Pairs-reverse xs ys h.1)
          (h.0, tt))

pub All-reverse {ℓ κ} : {A : Type ℓ} (P : A → Type κ) (xs : List A) → All P xs → All P (reverse xs)
All-reverse P [] h = h
All-reverse P (x ∷ xs) h =
    rw (reverse-cons x xs) (All-append P (reverse xs) (x ∷ []) (All-reverse P xs h.1) (h.0, tt))
