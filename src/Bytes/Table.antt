-- ===== src/Bytes/Table.antt =====
-- `std::unordered_map` with strings for keys, as far as the relay uses it: assignment through `[]`,
-- `find` and `erase`. The order of the entries is never used.
use msg.Prelude.{
  ◌≡◌, refl, ap, ◌∙◌, inl, inr, false, Option, none, some, List, [], ◌∷◌, if◌then◌else◌, Bool-cases,
}
use msg.Bytes.{ByteVector}
use msg.Bytes.Equal.{same, same_refl, same→eq}

module _ {V : Type 0} where
  unfoldable pub lookup : ByteVector → List (ByteVector × V) → Option V
  lookup k [] = none
  lookup k ((j, v) ∷ t) = if same j k then some v else lookup k t

  unfoldable pub erase : ByteVector → List (ByteVector × V) → List (ByteVector × V)
  erase k [] = []
  erase k ((j, v) ∷ t) = let rest = erase k t in if same j k then rest else (j, v) ∷ rest

  unfoldable pub insert : ByteVector → V → List (ByteVector × V) → List (ByteVector × V)
  insert k v t = (k, v) ∷ erase k t

  pub lookup-erase_self : (k : ByteVector) (t : List (ByteVector × V)) → lookup k (erase k t) ≡ none
  unfolding lookup erase
  lookup-erase_self k [] = refl
  lookup-erase_self k ((j, v) ∷ t) = elim (Bool-cases (same j k)) [
    | inl agree ↦ rw agree (lookup-erase_self k t)
    | inr differ ↦
        ap (λ b. lookup k (if b then erase k t else (j, v) ∷ erase k t)) differ
        ∙ ap (λ b. if b then some v else lookup k (erase k t)) differ
        ∙ lookup-erase_self k t
  ]

  pub lookup-insert_self :
      (k : ByteVector) (v : V) (t : List (ByteVector × V)) → lookup k (insert k v t) ≡ some v
  unfolding lookup insert
  lookup-insert_self k v t = rw (same_refl k)

  -- Two keys that differ do not meet.
  pub lookup-erase_other :
      (j k : ByteVector) (t : List (ByteVector × V))
      → same k j ≡ false
      → lookup j (erase k t) ≡ lookup j t
  unfolding lookup erase
  lookup-erase_other j k [] h = refl
  lookup-erase_other j k ((i, v) ∷ t) h = elim (Bool-cases (same i k)) [
    | inl agree ↦
        let other : same i j ≡ false = ap (λ x. same x j) (same→eq i k agree) ∙ h in
        rw (agree, other) (lookup-erase_other j k t h)
    | inr differ ↦
        ap (λ b. lookup j (if b then erase k t else (i, v) ∷ erase k t)) differ
        ∙ ap (λ r. if same i j then some v else r) (lookup-erase_other j k t h)
  ]

  pub lookup-insert_other :
      (j k : ByteVector) (v : V) (t : List (ByteVector × V))
      → same k j ≡ false
      → lookup j (insert k v t) ≡ lookup j t
  unfolding lookup insert
  lookup-insert_other j k v t h = rw h (lookup-erase_other j k t h)
