-- ===== src/Tunnel/Chain/Mirror.antt =====
-- A row run from its first processor to its last is the reversed row run from its last to its first.
use mathlib.Core.List.{reverse-cons}
use msg.Prelude.{
  ◌≡◌, refl, sym, ap, ◌∙◌, List, [], ◌∷◌, ◌++◌, reverse, Result, ok, ◌>>=◌, >>=_assoc, >>=_ext,
}
use msg.Tunnel.Stream.{DataBufferList, Transform}
use msg.Tunnel.Stream.Pipeline.{feed, forward, backward}

-- The outcome of a row, with the row turned round.
abbrev pub turned :
    {P : Type 0} → Result (List P × DataBufferList) → Result (List P × DataBufferList)
turned m = m >>= λ r. ok (reverse r.0, r.1)

module _ {P : Type 0} (f : Transform P) where
  forward_snoc :
      (ps : List P) (p : P) (cur : DataBufferList)
      → forward f (ps ++ p ∷ []) cur
        ≡ (forward f ps cur >>= λ r. feed f p r.1 >>= λ q. ok (r.0 ++ q.0 ∷ [], q.1))
  unfolding forward
  forward_snoc [] p cur = >>=_ext (feed f p cur) _ _ (λ r. refl)
  forward_snoc (q ∷ ps) p cur =
      >>=_ext (feed f q cur) _ _
        (λ x. ap (λ m. m >>= λ r. ok (x.0 ∷ r.0, r.1)) (forward_snoc ps p x.1) ∙ simp >>=_assoc)
      ∙ sym (>>=_assoc (feed f q cur) _ _)

  pub forward-reverse :
      (ps : List P) (cur : DataBufferList) → forward f (reverse ps) cur ≡ turned (backward f ps cur)
  unfolding forward backward
  forward-reverse [] cur = refl
  forward-reverse (p ∷ ps) cur =
      ap (λ qs. forward f qs cur) (reverse-cons p ps)
      ∙ forward_snoc (reverse ps) p cur
      ∙ ap (λ m. m >>= λ r. feed f p r.1 >>= λ q. ok (r.0 ++ q.0 ∷ [], q.1))
          (forward-reverse ps cur)
      ∙ simp (>>=_assoc, ← reverse-cons)
