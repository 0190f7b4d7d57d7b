-- ===== src/Examples/Tunnels.antt =====
-- Two nodes with a chain of three processors, and what a run between them comes to.
use msg.Prelude.{ℕ, ◌≡◌, refl, inr, true, false, List, [], ◌∷◌, ◌++◌, All, ok, some, flatten, arith}
use msg.Bytes.{ByteVector}
use msg.Bytes.Equal.{same}
use msg.Bytes.BigEndian.{word_bytes, word_at}
use msg.Tunnel.Text.{codes, find, split, getlines, stoull, skip_spaces, digits_from}
use msg.Tunnel.Stream.Pipeline.{feed, forward, backward}
use msg.Tunnel.Stream.Delivery.{Connection, Event, send, deliver, step, run}
use msg.Tunnel.Cfb.{mix, encrypt_loop, decrypt_loop, encrypt, decrypt, extend_iv, new_cfb}
use msg.Tunnel.Cfb
use msg.Tunnel.Padding.{
  write_u32, read_u32, unpack_loop, apply_unpack, pad_bytes, pack_loop, new_padding,
}
use msg.Tunnel.Padding
use msg.Tunnel.Nonce.{
  digest, hmac_sha256, new_cfb_nonce, derive_iv, make_nonce, init_pack, init_unpack, encrypt_all,
  decrypt_all,
}
use msg.Tunnel.Nonce
use msg.Tunnel.Processor
use msg.Tunnel.Processor.{Processor}
use msg.Tunnel.Chain.{ProcessorChain, add, on_local_data, on_remote_data, flush_local, flush_remote}
use msg.Tunnel.Config.{
  Draws, lookup, put_item, put_items, parse_kv, parse_bool, reverse_of, resolve_processor_reverse,
  spec_name, spec_args, cfb_of, build_cfb, cfb_nonce_of, build_cfb_nonce, padding_seed,
  padding_in_range, padding_of, build_padding, branch, build_named, build_one, build_loop,
  build_processor_chain,
}
use msg.Tunnel.Config.Mirror.{IsForward, mirrored}
use msg.Tunnel.Config.Bounds.{InRange, chain_InRange}
use msg.Tunnel.Chain.Linked.{Outbound, Inbound}
use msg.Tunnel.Chain.Flush.{flush_nothing}
use msg.Tunnel.TwoHop.{
  start, outbound_in_order, outbound_complete, inbound_in_order, inbound_complete,
}
use msg.Examples.Setup.{counting, toy, value_or, chain_or}

abbrev specs : List ByteVector
specs =
    codes "padding:chunk=2,max=3,seed=1"
    ∷ codes "cfb:key=abc"
    ∷ codes "cfb_nonce:iv=i,hmac_key=h"
    ∷ []

abbrev entry_draws : ℕ → Draws toy
entry_draws i = record { now = 1; device_high = 2; device_low = 3; entropy = i }

abbrev exit_draws : ℕ → Draws toy
exit_draws i = record { now = 4; device_high = 5; device_low = 6; entropy = i }

abbrev entry : ProcessorChain counting toy
entry = chain_or [] (build_processor_chain counting toy entry_draws specs false)

abbrev exit : ProcessorChain counting toy
exit = chain_or [] (build_processor_chain counting toy exit_draws specs true)

abbrev events : List Event
events = send (104 ∷ 105 ∷ 33 ∷ []) ∷ deliver 100 ∷ deliver 460 ∷ deliver 50 ∷ []

abbrev outbound : Connection (ProcessorChain counting toy)
outbound =
    value_or (start entry exit)
      (run (on_local_data counting toy) (on_local_data counting toy) (start entry exit) events)

abbrev inbound : Connection (ProcessorChain counting toy)
inbound =
    value_or (start exit entry)
      (run (on_remote_data counting toy) (on_remote_data counting toy) (start exit entry) events)

entry_built : build_processor_chain counting toy entry_draws specs false ≡ ok (some entry)
unfolding build_processor_chain build_loop build_one build_named branch build_padding padding_of
    padding_in_range padding_seed build_cfb_nonce cfb_nonce_of build_cfb cfb_of spec_args spec_name
    resolve_processor_reverse reverse_of parse_bool parse_kv put_items put_item lookup add new_cfb
    extend_iv new_cfb_nonce new_padding same find split getlines stoull skip_spaces digits_from
entry_built = refl

exit_built : build_processor_chain counting toy exit_draws specs true ≡ ok (some exit)
unfolding build_processor_chain build_loop build_one build_named branch build_padding padding_of
    padding_in_range padding_seed build_cfb_nonce cfb_nonce_of build_cfb cfb_of spec_args spec_name
    resolve_processor_reverse reverse_of parse_bool parse_kv put_items put_item lookup add new_cfb
    extend_iv new_cfb_nonce new_padding same find split getlines stoull skip_spaces digits_from
exit_built = refl

entry-IsForward : All (IsForward counting toy) entry
unfolding build_processor_chain build_loop build_one build_named branch build_padding padding_of
    padding_in_range padding_seed build_cfb_nonce cfb_nonce_of build_cfb cfb_of spec_args spec_name
    resolve_processor_reverse reverse_of parse_bool parse_kv put_items put_item lookup add new_cfb
    extend_iv new_cfb_nonce new_padding same find split getlines stoull skip_spaces digits_from
entry-IsForward = ((inr refl, omega arith), ((inr refl, tt), ((inr refl, tt), tt)))

outbound-run :
    run (on_local_data counting toy) (on_local_data counting toy) (start entry exit) events
    ≡ ok outbound
unfolding build_processor_chain build_loop build_one build_named branch build_padding padding_of
    padding_in_range padding_seed build_cfb_nonce cfb_nonce_of build_cfb cfb_of spec_args spec_name
    resolve_processor_reverse reverse_of parse_bool parse_kv put_items put_item lookup add new_cfb
    extend_iv new_cfb_nonce new_padding same find split getlines stoull skip_spaces digits_from step
    run feed forward backward on_local_data on_remote_data Processor.on_local_data
    Processor.on_remote_data Processor.pack Processor.unpack Processor.copy Cfb.pack Cfb.unpack
    encrypt decrypt encrypt_loop decrypt_loop mix Nonce.pack Nonce.unpack init_pack init_unpack
    encrypt_all decrypt_all make_nonce derive_iv hmac_sha256 digest Padding.pack Padding.unpack
    pack_loop pad_bytes apply_unpack unpack_loop read_u32 write_u32 word_bytes word_at flatten
outbound-run = refl

inbound-run :
    run (on_remote_data counting toy) (on_remote_data counting toy) (start exit entry) events
    ≡ ok inbound
unfolding build_processor_chain build_loop build_one build_named branch build_padding padding_of
    padding_in_range padding_seed build_cfb_nonce cfb_nonce_of build_cfb cfb_of spec_args spec_name
    resolve_processor_reverse reverse_of parse_bool parse_kv put_items put_item lookup add new_cfb
    extend_iv new_cfb_nonce new_padding same find split getlines stoull skip_spaces digits_from step
    run feed forward backward on_local_data on_remote_data Processor.on_local_data
    Processor.on_remote_data Processor.pack Processor.unpack Processor.copy Cfb.pack Cfb.unpack
    encrypt decrypt encrypt_loop decrypt_loop mix Nonce.pack Nonce.unpack init_pack init_unpack
    encrypt_all decrypt_all make_nonce derive_iv hmac_sha256 digest Padding.pack Padding.unpack
    pack_loop pad_bytes apply_unpack unpack_loop read_u32 write_u32 word_bytes word_at flatten
inbound-run = refl

outbound_empty : outbound.wire ≡ []
unfolding build_processor_chain build_loop build_one build_named branch build_padding padding_of
    padding_in_range padding_seed build_cfb_nonce cfb_nonce_of build_cfb cfb_of spec_args spec_name
    resolve_processor_reverse reverse_of parse_bool parse_kv put_items put_item lookup add new_cfb
    extend_iv new_cfb_nonce new_padding same find split getlines stoull skip_spaces digits_from step
    run feed forward backward on_local_data on_remote_data Processor.on_local_data
    Processor.on_remote_data Processor.pack Processor.unpack Processor.copy Cfb.pack Cfb.unpack
    encrypt decrypt encrypt_loop decrypt_loop mix Nonce.pack Nonce.unpack init_pack init_unpack
    encrypt_all decrypt_all make_nonce derive_iv hmac_sha256 digest Padding.pack Padding.unpack
    pack_loop pad_bytes apply_unpack unpack_loop read_u32 write_u32 word_bytes word_at flatten
outbound_empty = refl

inbound_empty : inbound.wire ≡ []
unfolding build_processor_chain build_loop build_one build_named branch build_padding padding_of
    padding_in_range padding_seed build_cfb_nonce cfb_nonce_of build_cfb cfb_of spec_args spec_name
    resolve_processor_reverse reverse_of parse_bool parse_kv put_items put_item lookup add new_cfb
    extend_iv new_cfb_nonce new_padding same find split getlines stoull skip_spaces digits_from step
    run feed forward backward on_local_data on_remote_data Processor.on_local_data
    Processor.on_remote_data Processor.pack Processor.unpack Processor.copy Cfb.pack Cfb.unpack
    encrypt decrypt encrypt_loop decrypt_loop mix Nonce.pack Nonce.unpack init_pack init_unpack
    encrypt_all decrypt_all make_nonce derive_iv hmac_sha256 digest Padding.pack Padding.unpack
    pack_loop pad_bytes apply_unpack unpack_loop read_u32 write_u32 word_bytes word_at flatten
inbound_empty = refl

outbound_in_order_example :
    ((rest : ByteVector) × (outbound.sent ≡ outbound.delivered ++ rest))
    × ((d : Connection (ProcessorChain counting toy)) × (step
            (on_local_data counting toy)
            (on_local_data counting toy)
            outbound
            (deliver 7)
          ≡ ok d))
outbound_in_order_example =
    outbound_in_order counting toy entry_draws exit_draws specs entry exit entry_built exit_built
      entry-IsForward events outbound outbound-run 7

outbound_complete_example : outbound.delivered ≡ outbound.sent
outbound_complete_example =
    outbound_complete counting toy entry_draws exit_draws specs entry exit entry_built exit_built
      entry-IsForward events outbound outbound-run outbound_empty

inbound_in_order_example :
    ((rest : ByteVector) × (inbound.sent ≡ inbound.delivered ++ rest))
    × ((d : Connection (ProcessorChain counting toy)) × (step
            (on_remote_data counting toy)
            (on_remote_data counting toy)
            inbound
            (deliver 7)
          ≡ ok d))
inbound_in_order_example =
    inbound_in_order counting toy entry_draws exit_draws specs entry exit entry_built exit_built
      entry-IsForward events inbound inbound-run 7

inbound_complete_example : inbound.delivered ≡ inbound.sent
inbound_complete_example =
    inbound_complete counting toy entry_draws exit_draws specs entry exit entry_built exit_built
      entry-IsForward events inbound inbound-run inbound_empty

mirrored_example :
    (qs : ProcessorChain counting toy) × (build_processor_chain counting toy exit_draws specs true
      ≡ ok (some qs))
    × Outbound counting toy entry qs [] []
    × Inbound counting toy qs entry [] []
mirrored_example =
    mirrored counting toy entry_draws exit_draws specs entry entry_built entry-IsForward

chain_InRange_example : All (λ (p : Processor counting toy). InRange counting toy p.codec) entry
chain_InRange_example = chain_InRange counting toy entry_draws false specs entry entry_built

flush_nothing_example :
    (flush_local counting toy entry ≡ ok (entry, []))
    × (flush_remote counting toy entry ≡ ok (entry, []))
flush_nothing_example = flush_nothing counting toy entry
