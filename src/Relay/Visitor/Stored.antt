-- ===== src/Relay/Visitor/Stored.antt =====
-- A map of entries over the store of the visitor's clients.
use msg.Prelude.{
  ℕ, ◌<◌, ◌≡◌, refl, sym, ap, subst, ◌∙◌, inl, inr, true, false, none, some, List, [], ◌==◌, ==_iff,
  Bool-cases, if◌then◌else◌,
}
use msg.Bytes.{ByteVector}
use msg.Bytes.Equal.{same, same→eq, same_refl}
use msg.Bytes.Table.{lookup, erase, lookup-erase_self, lookup-erase_other}
use msg.Relay.Visitor.Client.{ClientSession}
use msg.Relay.Visitor.{update}

abbrev pub Store : Type 0
Store = ℕ → ClientSession

-- An entry leads to an object that there is, under its own identifier, and that is not closed.
abbrev pub IsEntry : (ℕ → ClientSession) → ℕ → ByteVector → ℕ → Type 0
IsEntry objects next uuid h =
    ((objects h).uuid ≡ uuid) × ((h < next) × ((objects h).closed ≡ false))

abbrev pub WellStored : List (ByteVector × ℕ) → Store → ℕ → Type 0
WellStored sessions objects next =
    (uuid : ByteVector) (h : ℕ) → lookup uuid sessions ≡ some h → IsEntry objects next uuid h

-- To look at another object, or at the one that has been put.
pub by_handle :
    (objects : Store) (h : ℕ) (s : ClientSession) (k : ℕ) (P : ClientSession → Type 0)
    → (k ≡ h → P s)
    → P (objects k)
    → P (update objects h s k)
by_handle objects h s k P here there = elim (Bool-cases (k == h)) [
  | inl e ↦ subst (λ b. P (if b then s else objects k)) (sym e) (here ((==_iff k h).0 e))
  | inr e ↦ subst (λ b. P (if b then s else objects k)) (sym e) there
]

-- A session that stays open, or stays as closed as it was.
pub put_kept :
    (sessions : List (ByteVector × ℕ)) (objects : Store) (next h : ℕ) (s : ClientSession)
    → WellStored sessions objects next
    → s.uuid ≡ (objects h).uuid
    → s.closed ≡ (objects h).closed
    → WellStored sessions (update objects h s) next
put_kept sessions objects next h s well u c uuid k found =
    let entry = well uuid k found in
    by_handle objects h s k (λ t. (t.uuid ≡ uuid) × ((k < next) × (t.closed ≡ false)))
      (λ e. (
        u ∙ ap (λ n. (objects n).uuid) (sym e) ∙ entry.0,
        (entry.1.0, c ∙ ap (λ n. (objects n).closed) (sym e) ∙ entry.1.1),
      ))
      entry

lookup-erased :
    (j k : ByteVector) (t : List (ByteVector × ℕ)) (h : ℕ)
    → lookup j (erase k t) ≡ some h
    → (same k j ≡ false) × (lookup j t ≡ some h)
lookup-erased j k t h found = elim (Bool-cases (same k j)) [
  | inl agree ↦ absurd (
      let missing : none ≡ some h =
        sym (lookup-erase_self k t) ∙ ap (λ i. lookup i (erase k t)) (same→eq k j agree) ∙ found in
      cc)
  | inr differ ↦ (differ, sym (lookup-erase_other j k t differ) ∙ found)
]

-- A session that is put back in any state, with its entry erased.
pub put_erased :
    (sessions : List (ByteVector × ℕ)) (objects : Store) (next h : ℕ) (s : ClientSession)
    (uuid : ByteVector)
    → WellStored sessions objects next
    → (objects h).uuid ≡ uuid
    → WellStored (erase uuid sessions) (update objects h s) next
put_erased sessions objects next h s uuid well u j k found =
    let (differ, before) = lookup-erased j uuid sessions k found in
    let entry = well j k before in
    by_handle objects h s k (λ t. (t.uuid ≡ j) × ((k < next) × (t.closed ≡ false)))
      (λ e. absurd (
        let one : uuid ≡ j = sym u ∙ ap (λ n. (objects n).uuid) (sym e) ∙ entry.0 in
        let agree : same uuid j ≡ true = ap (same uuid) (sym one) ∙ same_refl uuid in cc))
      entry

pub none_stored : (objects : Store) (next : ℕ) → WellStored [] objects next
unfolding lookup
none_stored objects next uuid h found = absurd (cc)

pub update_here : (objects : Store) (h : ℕ) (s : ClientSession) → update objects h s h ≡ s
update_here objects h s = ap (λ b. if b then s else objects h) ((==_iff h h).1 refl)
