-- ===== src/Tunnel/Config.antt =====
-- From `--processor` arguments to a chain: `parse_kv` to `build_processor_chain` of tunnel.cpp.
pub mod Mirror
pub mod Bounds
pub mod Repeat
use msg.Prelude.{
  ℕ, suc, ◌+◌, ◌-◌, ◌*◌, ◌%◌, ◌^◌, bit_xor, Bool, true, false, ◌||◌, Option, none, some, List, [],
  ◌∷◌, ◌++◌, reverse, take, drop, ltb, if◌then◌else◌, Result, ok, ◌>>=◌,
}
use msg.Bytes.{ByteVector, u64}
use msg.Bytes.Equal.{same}
use msg.Random.{Random}
use msg.Crypto.{Crypto}
use msg.Tunnel.Text.{codes, find, split, stoull}
use msg.Tunnel.Cfb.{new_cfb}
use msg.Tunnel.Nonce.{new_cfb_nonce}
use msg.Tunnel.Padding.{new_padding}
use msg.Tunnel.Processor.{Processor, identity, cfb, cfb_nonce, padding}
use msg.Tunnel.Chain.{ProcessorChain, add}

-- `std::unordered_map<std::string, std::string>`, the latest entry first. It is never walked.
abbrev pub KeyValues : Type 0
KeyValues = List (ByteVector × ByteVector)

-- `find`, and `count` as the test of its result
unfoldable pub lookup : ByteVector → KeyValues → Option ByteVector
lookup k [] = none
lookup k ((j, v) ∷ kv) = if same j k then some v else lookup k kv

-- One round of the loop of `parse_kv`: an item with no `=` is passed over.
unfoldable pub put_item : KeyValues → ByteVector → KeyValues
put_item kv item = elim (find b'=' item) [
  | none ↦ kv
  | some eq ↦ (take eq item, drop (suc eq) item) ∷ kv
]

unfoldable pub put_items : KeyValues → List ByteVector → KeyValues
put_items kv [] = kv
put_items kv (item ∷ items) = put_items (put_item kv item) items

unfoldable pub parse_kv : ByteVector → KeyValues
unfolding put_items put_item
parse_kv s = put_items [] (split s b',')

unfoldable pub parse_bool : ByteVector → Bool
parse_bool v = same v (codes "1") || same v (codes "true") || same v (codes "yes")

-- With the processor's own `reverse` argument, if there is one.
unfoldable pub reverse_of : Bool → Option ByteVector → Bool
reverse_of global_reverse none = global_reverse
reverse_of global_reverse (some v) = if global_reverse then global_reverse else parse_bool v

unfoldable pub resolve_processor_reverse : KeyValues → Bool → Bool
unfolding reverse_of
resolve_processor_reverse kv global_reverse =
    reverse_of global_reverse (lookup (codes "reverse") kv)

-- `std::numeric_limits<uint32_t>::max()`
abbrev pub u32_max : ℕ
u32_max = 2 ^ 32 - 1

-- What a processor that is built may draw: the clock and two readings of the random device for a
-- seed, and the state of OpenSSL's random generator.
pub record Draws (C : Crypto) : Type 0 where
  pub now : ℕ
  pub device_high : ℕ
  pub device_low : ℕ
  pub entropy : C.Entropy

-- The specification's part before the first `:`, and the arguments behind it.
unfoldable pub spec_name : ByteVector → ByteVector
spec_name spec = elim (find b':' spec) [ none ↦ spec | some colon ↦ take colon spec ]

unfoldable pub spec_args : ByteVector → ByteVector
spec_args spec = elim (find b':' spec) [ none ↦ [] | some colon ↦ drop (suc colon) spec ]

module _ (R : Random) (C : Crypto) where
  -- `none` is an error that is logged, by which the whole chain is refused. Each of these takes
  -- what `find` gives for the keys that it needs.
  unfoldable pub cfb_of : KeyValues → Bool → Option ByteVector → Option (Processor R C)
  cfb_of kv backwards none = none
  cfb_of kv backwards (some key) =
      some (record { codec = cfb (new_cfb key); reverse = resolve_processor_reverse kv backwards })

  unfoldable pub build_cfb : KeyValues → Bool → Option (Processor R C)
  unfolding cfb_of
  build_cfb kv backwards = cfb_of kv backwards (lookup (codes "key") kv)

  -- An empty value is refused like a missing one.
  unfoldable pub cfb_nonce_of :
      Draws C → KeyValues → Bool → Option ByteVector → Option ByteVector → Option (Processor R C)
  cfb_nonce_of d kv backwards (some (b ∷ iv)) (some (k ∷ key)) = some (record {
    codec = cfb_nonce (new_cfb_nonce C (b ∷ iv) (k ∷ key) d.entropy);
    reverse = resolve_processor_reverse kv backwards;
  })
  cfb_nonce_of d kv backwards _ _ = none

  unfoldable pub build_cfb_nonce : Draws C → KeyValues → Bool → Option (Processor R C)
  unfolding cfb_nonce_of
  build_cfb_nonce d kv backwards =
      cfb_nonce_of d kv backwards (lookup (codes "iv") kv) (lookup (codes "hmac_key") kv)

  -- The seed that is given, or one from the clock and the random device.
  unfoldable pub padding_seed : Draws C → Option ByteVector → Result ℕ
  padding_seed d (some s) = stoull s
  padding_seed d none =
      ok (bit_xor (u64 d.now) (bit_xor (u64 (d.device_high * 2 ^ 32)) d.device_low))

  -- With `chunk` and `max` read: the range test, the seed and the constructor.
  unfoldable pub padding_in_range :
      Draws C → KeyValues → Bool → ℕ → ℕ → Result (Option (Processor R C))
  padding_in_range d kv backwards chunk pad_max =
      if ltb u32_max chunk || ltb u32_max pad_max then ok none else (do
        seed ← padding_seed d (lookup (codes "seed") kv)
        let r = resolve_processor_reverse kv backwards
        ok (some (record { codec = padding (new_padding R chunk pad_max seed r); reverse = r })))

  unfoldable pub padding_of :
      Draws C
      → KeyValues
      → Bool
      → Option ByteVector
      → Option ByteVector
      → Result (Option (Processor R C))
  padding_of d kv backwards (some chunk_text) (some max_text) = do
    chunk ← stoull chunk_text
    pad_max ← stoull max_text
    padding_in_range d kv backwards chunk pad_max
  padding_of d kv backwards _ _ = ok none

  unfoldable pub build_padding : Draws C → KeyValues → Bool → Result (Option (Processor R C))
  unfolding padding_of
  build_padding d kv backwards =
      padding_of d kv backwards (lookup (codes "chunk") kv) (lookup (codes "max") kv)

  -- The branches of the source in their order, by the outcomes of the tests of the name.
  unfoldable pub branch :
      Draws C → KeyValues → Bool → Bool → Bool → Bool → Bool → Result (Option (Processor R C))
  branch d kv backwards is_identity is_cfb is_cfb_nonce is_padding =
      if is_identity
      then ok (some (record { codec = identity; reverse = false }))
      else if is_cfb
      then ok (build_cfb kv backwards)
      else if is_cfb_nonce
      then ok (build_cfb_nonce d kv backwards)
      else if is_padding
      then build_padding d kv backwards
      else ok none

  unfoldable pub build_named :
      Draws C → ByteVector → KeyValues → Bool → Result (Option (Processor R C))
  unfolding branch
  build_named d name kv backwards =
      branch d kv backwards (same name (codes "identity")) (same name (codes "cfb"))
        (same name (codes "cfb_nonce")) (same name (codes "padding"))

  -- One round of the loop.
  unfoldable pub build_one : Draws C → ByteVector → Bool → Result (Option (Processor R C))
  build_one d spec backwards = build_named d (spec_name spec) (parse_kv (spec_args spec)) backwards

  -- `draws i` is what the processor at position `i` of the ordered specifications may draw.
  module _ (draws : ℕ → Draws C) where
    unfoldable pub build_loop :
        ProcessorChain R C → ℕ → List ByteVector → Bool → Result (Option (ProcessorChain R C))
    build_loop chain i [] backwards = ok (some chain)
    build_loop chain i (spec ∷ specs) backwards = do
      built ← build_one (draws i) spec backwards
      elim built [ none ↦ ok none | some p ↦ build_loop (add R C chain p) (suc i) specs backwards ]

    unfoldable pub build_processor_chain :
        List ByteVector → Bool → Result (Option (ProcessorChain R C))
    build_processor_chain [] backwards =
        ok (some (add R C [] (record { codec = identity; reverse = false })))
    build_processor_chain (spec ∷ specs) backwards =
        build_loop [] 0 (if backwards then reverse (spec ∷ specs) else spec ∷ specs) backwards
