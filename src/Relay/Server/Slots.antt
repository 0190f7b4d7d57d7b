-- ===== src/Relay/Server/Slots.antt =====
-- The places of a pair are never given up.
use msg.Prelude.{
  ℕ, ◌≡◌, refl, ap, ◌∙◌, inl, inr, Option, none, some, List, [], ◌∷◌, Bool-cases, if◌then◌else◌,
}
use msg.Bytes.{ByteVector}
use msg.Bytes.Equal.{same, same→eq}
use msg.Relay.Server.{
  Role, visitor, provider, Match, slot, fill, Pairing, find_match, Outcome, refused, ready, outcome,
  enter, register, registered,
}

-- Filling a free place leaves the taken ones as they are.
slot-fill :
    (role role' : Role) (n k : ℕ) (m : Match)
    → slot role m ≡ none
    → slot role' m ≡ some k
    → slot role' (fill role n m) ≡ some k
slot-fill visitor visitor n k m free taken = absurd (cc)
slot-fill visitor provider n k m free taken = taken
slot-fill provider visitor n k m free taken = taken
slot-fill provider provider n k m free taken = absurd (cc)

-- An entry in front keeps a place if its own match does.
find_front :
    (id id' : ByteVector) (m : Match) (pairs : Pairing) (role : Role) (k : ℕ)
    → (id ≡ id' → slot role m ≡ some k)
    → slot role (find_match id' pairs) ≡ some k
    → slot role (find_match id' ((id, m) ∷ pairs)) ≡ some k
unfolding find_match
find_front id id' m pairs role k front back = elim (Bool-cases (same id id')) [
  | inl agree ↦
      ap (λ b. slot role (if b then m else find_match id' pairs)) agree
      ∙ front (same→eq id id' agree)
  | inr differ ↦ ap (λ b. slot role (if b then m else find_match id' pairs)) differ ∙ back
]

register_keeps :
    (pairs : Pairing) (n : ℕ) (id : ByteVector) (role : Role) (id' : ByteVector) (role' : Role)
    (k : ℕ)
    → slot role' (find_match id' pairs) ≡ some k
    → slot role' (find_match id' (register pairs n id role).0) ≡ some k
unfolding register
register_keeps pairs n id role id' role' k taken = by_place (slot role (find_match id pairs)) refl
  where
    moved : id ≡ id' → slot role' (find_match id pairs) ≡ some k
    moved e = ap (λ i. slot role' (find_match i pairs)) e ∙ taken

    by_place :
        (place : Option ℕ)
        → slot role (find_match id pairs) ≡ place
        → slot role' (find_match id' (enter pairs n id role (find_match id pairs) place).0) ≡ some k
    by_place (some j) e = find_front id id' (find_match id pairs) pairs role' k moved taken
    by_place none e =
        find_front id id' (fill role n (find_match id pairs)) pairs role' k
          (λ s. slot-fill role role' n k (find_match id pairs) e (moved s)) taken

registered_keeps :
    (more : List (ℕ × ByteVector × Role)) (pairs : Pairing) (id : ByteVector) (role : Role) (k : ℕ)
    → slot role (find_match id pairs) ≡ some k
    → slot role (find_match id (registered pairs more)) ≡ some k
unfolding registered
registered_keeps [] pairs id role k taken = taken
registered_keeps ((n, i, r) ∷ more) pairs id role k taken =
    registered_keeps more (register pairs n i r).0 id role k
      (register_keeps pairs n i r id role k taken)

-- Once a connection holds a place of an identifier, it holds it after any further registrations,
-- and every later registration for that place is refused.
pub place_taken_for_good :
    (pairs : Pairing) (more : List (ℕ × ByteVector × Role)) (id : ByteVector) (role : Role)
    (k n : ℕ)
    → slot role (find_match id pairs) ≡ some k
    → (slot role (find_match id (registered pairs more)) ≡ some k)
      × ((register (registered pairs more) n id role).1 ≡ refused)
unfolding register
place_taken_for_good pairs more id role k n taken =
    let held = registered_keeps more pairs id role k taken in
    let m = find_match id (registered pairs more) in
    (held, ap (λ place. (enter (registered pairs more) n id role m place).1) held)

abbrev pub opposite : Role → Role
opposite visitor = provider
opposite provider = visitor

-- READY goes to the visitor first.
abbrev pub both_ready : Role → ℕ → ℕ → Outcome
both_ready visitor n k = ready n k
both_ready provider n k = ready k n

enter_ready :
    (role : Role) (pairs : Pairing) (n k : ℕ) (id : ByteVector) (m : Match)
    → slot (opposite role) m ≡ some k
    → (enter pairs n id role m none).1 ≡ both_ready role n k
unfolding enter outcome
enter_ready visitor pairs n k id m e = ap (λ c. outcome (record { b = some n; c = c })) e
enter_ready provider pairs n k id m e = ap (λ b. outcome (record { b = b; c = some n })) e

-- A registration for a free place of an identifier whose other place is taken leads to READY for
-- both connections, the visitor's first.
pub second_makes_ready :
    (pairs : Pairing) (n k : ℕ) (id : ByteVector) (role : Role)
    → slot role (find_match id pairs) ≡ none
    → slot (opposite role) (find_match id pairs) ≡ some k
    → (register pairs n id role).1 ≡ both_ready role n k
unfolding register
second_makes_ready pairs n k id role free taken =
    let m = find_match id pairs in
    ap (λ place. (enter pairs n id role m place).1) free ∙ enter_ready role pairs n k id m taken
