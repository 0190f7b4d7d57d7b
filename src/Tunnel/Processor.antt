-- ===== src/Tunnel/Processor.antt =====
-- processor.hpp and identity.cpp: the class hierarchy as data, and the roles of a processor.
pub mod Linked
pub mod Roles
use msg.Prelude.{Bool, true, false, List, [], ◌∷◌, if◌then◌else◌, Result, ok, ◌>>=◌}
use msg.Bytes.{ByteVector}
use msg.Random.{Random}
use msg.Crypto.{Crypto}
use msg.Tunnel.Stream.{DataBufferList}
use msg.Tunnel.Cfb
use msg.Tunnel.Cfb.{Cfb}
use msg.Tunnel.Nonce
use msg.Tunnel.Nonce.{CfbNonce}
use msg.Tunnel.Padding
use msg.Tunnel.Padding.{Padding}

module _ (R : Random) (C : Crypto) where
  -- a constructor for each subclass of `Processor`, with its members
  pub data Codec : Type 0 where
    identity : Codec
    cfb : Cfb → Codec
    cfb_nonce : CfbNonce C → Codec
    padding : Padding R → Codec

  -- `reverse_` stands in the base class.
  pub record Processor : Type 0 where
    pub codec : Codec
    pub reverse : Bool

  -- `IdentityProcessor::pack` and `unpack`
  unfoldable pub copy : ByteVector → Result (Codec × DataBufferList)
  copy input = ok (identity, input ∷ [])

  -- The virtual `pack`: the buffers that it appends to `output`.
  unfoldable pub pack : Codec → ByteVector → Result (Codec × DataBufferList)
  pack identity input = copy input
  pack (cfb c) input = do (c', out) ← Cfb.pack c input; ok (cfb c', out)
  pack (cfb_nonce c) input = do (c', out) ← Nonce.pack C c input; ok (cfb_nonce c', out)
  pack (padding p) input = do (p', out) ← Padding.pack R p input; ok (padding p', out)

  -- The virtual `unpack`.
  unfoldable pub unpack : Codec → ByteVector → Result (Codec × DataBufferList)
  unpack identity input = copy input
  unpack (cfb c) input = do (c', out) ← Cfb.unpack c input; ok (cfb c', out)
  unpack (cfb_nonce c) input = do (c', out) ← Nonce.unpack C c input; ok (cfb_nonce c', out)
  unpack (padding p) input = do (p', out) ← Padding.unpack R p input; ok (padding p', out)

  with_codec : Processor → Result (Codec × DataBufferList) → Result (Processor × DataBufferList)
  with_codec p r = do (c, out) ← r; ok (record p { codec = c }, out)

  unfoldable pub on_local_data : Processor → ByteVector → Result (Processor × DataBufferList)
  unfolding with_codec
  on_local_data p input =
      if p.reverse then with_codec p (unpack p.codec input) else with_codec p (pack p.codec input)

  unfoldable pub on_remote_data : Processor → ByteVector → Result (Processor × DataBufferList)
  unfolding with_codec
  on_remote_data p input =
      if p.reverse then with_codec p (pack p.codec input) else with_codec p (unpack p.codec input)

  -- The base class's `flush_local` and `flush_remote`, which no subclass overrides.
  unfoldable pub flush_local : Processor → Processor × DataBufferList
  flush_local p = (p, [])

  unfoldable pub flush_remote : Processor → Processor × DataBufferList
  flush_remote p = (p, [])
