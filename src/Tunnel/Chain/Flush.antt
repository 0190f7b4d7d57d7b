-- ===== src/Tunnel/Chain/Flush.antt =====
-- No processor holds data back for a flush, so a flush of a chain puts out nothing.
use msg.Prelude.{◌≡◌, refl, [], ◌∷◌, ok}
use msg.Random.{Random}
use msg.Crypto.{Crypto}
use msg.Tunnel.Stream.Pipeline.{feed}
use msg.Tunnel.Processor
use msg.Tunnel.Chain.{ProcessorChain, flush_forward, flush_backward, flush_local, flush_remote}

module _ (R : Random) (C : Crypto) where
  flush_forward_nil : (ps : ProcessorChain R C) → flush_forward R C ps [] ≡ ok (ps, [])
  unfolding flush_forward feed Processor.flush_local
  flush_forward_nil [] = refl
  flush_forward_nil (p ∷ ps) = rw (flush_forward_nil ps)

  flush_backward_nil : (ps : ProcessorChain R C) → flush_backward R C ps [] ≡ ok (ps, [])
  unfolding flush_backward feed Processor.flush_remote
  flush_backward_nil [] = refl
  flush_backward_nil (p ∷ ps) = rw (flush_backward_nil ps, feed)

  -- Flushing a chain in either direction throws nothing, puts out nothing and changes no
  -- processor.
  pub flush_nothing :
      (ps : ProcessorChain R C)
      → (flush_local R C ps ≡ ok (ps, [])) × (flush_remote R C ps ≡ ok (ps, []))
  unfolding flush_local flush_remote
  flush_nothing ps = (flush_forward_nil ps, flush_backward_nil ps)
