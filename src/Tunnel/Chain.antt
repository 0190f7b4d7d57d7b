-- ===== src/Tunnel/Chain.antt =====
-- `ProcessorChain` of processor_chain.hpp and processor_chain.cpp.
pub mod Mirror
pub mod Linked
pub mod Flush
use msg.Prelude.{List, [], ◌∷◌, ◌++◌, Result, ok, ◌>>=◌}
use msg.Bytes.{ByteVector}
use msg.Random.{Random}
use msg.Crypto.{Crypto}
use msg.Tunnel.Stream.{DataBufferList}
use msg.Tunnel.Stream.Pipeline.{feed, forward, backward}
use msg.Tunnel.Processor
use msg.Tunnel.Processor.{Processor}

module _ (R : Random) (C : Crypto) where
  -- `processors_`
  abbrev pub ProcessorChain : Type 0
  ProcessorChain = List (Processor R C)

  unfoldable pub add : ProcessorChain → Processor R C → ProcessorChain
  add ps p = ps ++ p ∷ []

  unfoldable pub on_local_data :
      ProcessorChain → ByteVector → Result (ProcessorChain × DataBufferList)
  on_local_data [] input = ok ([], input ∷ [])
  on_local_data (p ∷ ps) input = forward (Processor.on_local_data R C) (p ∷ ps) (input ∷ [])

  unfoldable pub on_remote_data :
      ProcessorChain → ByteVector → Result (ProcessorChain × DataBufferList)
  on_remote_data [] input = ok ([], input ∷ [])
  on_remote_data (p ∷ ps) input = backward (Processor.on_remote_data R C) (p ∷ ps) (input ∷ [])

  -- The loop of `flush_local`: the buffers so far go through a processor, which then flushes.
  unfoldable pub flush_forward :
      ProcessorChain → DataBufferList → Result (ProcessorChain × DataBufferList)
  flush_forward [] cur = ok ([], cur)
  flush_forward (p ∷ ps) cur = do
    (p', next) ← feed (Processor.on_local_data R C) p cur
    let (p'', flushed) = Processor.flush_local R C p'
    (ps', out) ← flush_forward ps (next ++ flushed)
    ok (p'' ∷ ps', out)

  unfoldable pub flush_backward :
      ProcessorChain → DataBufferList → Result (ProcessorChain × DataBufferList)
  flush_backward [] cur = ok ([], cur)
  flush_backward (p ∷ ps) cur = do
    (ps', sofar) ← flush_backward ps cur
    (p', next) ← feed (Processor.on_remote_data R C) p sofar
    let (p'', flushed) = Processor.flush_remote R C p'
    ok (p'' ∷ ps', next ++ flushed)

  unfoldable pub flush_local : ProcessorChain → Result (ProcessorChain × DataBufferList)
  flush_local ps = flush_forward ps []

  unfoldable pub flush_remote : ProcessorChain → Result (ProcessorChain × DataBufferList)
  flush_remote ps = flush_backward ps []
