-- ===== src/Examples/Sessions.antt =====
-- A session that carries two bytes one way, and ends after the end of the file on both sides.
use msg.Prelude.{◌+◌, ◌*◌, ◌⊎◌, ◌≡◌, refl, true, false, [], ◌∷◌, ◌++◌, length, flatten}
use msg.Bytes.{ByteVector, u64}
use msg.Tunnel.Stream.Pipeline.{feed, forward}
use msg.Tunnel.Processor
use msg.Tunnel.Processor.{identity}
use msg.Tunnel.Chain.{
  ProcessorChain, on_local_data, flush_forward, flush_backward, flush_local, flush_remote,
}
use msg.Tunnel.Session.{
  local, remote, received, end_of_file, wrote, write_failed, SessionState, on_data, flush,
  close_all, on_done, write_next, flush_next, count_write, cut_write, complete, read_side,
  new_session,
}
use msg.Tunnel.Session.Invariant.{done, on_wire}
use msg.Tunnel.Session.Lifetime.{
  Reaches, begins, continues, ends_closed, closing_logged_once, written_in_order,
}
use msg.Examples.Setup.{counting, toy, value_or}

abbrev plain : ProcessorChain counting toy
plain = record { codec = identity; reverse = false } ∷ []

abbrev opened : SessionState counting toy
opened = new_session counting toy plain

abbrev got_data : SessionState counting toy
got_data = value_or opened (read_side counting toy local opened (received (1 ∷ 2 ∷ [])))

abbrev passed_on : SessionState counting toy
passed_on = value_or opened (read_side counting toy local got_data wrote)

abbrev half_closed : SessionState counting toy
half_closed = value_or opened (read_side counting toy local passed_on end_of_file)

abbrev ended : SessionState counting toy
ended = value_or opened (read_side counting toy remote half_closed end_of_file)

ended_reached : Reaches counting toy plain ended
unfolding read_side complete on_data flush on_local_data forward feed Processor.on_local_data
    Processor.pack Processor.copy flush_local flush_remote flush_forward flush_backward
    Processor.flush_local Processor.flush_remote write_next flush_next count_write on_done close_all
    flatten
ended_reached =
    continues half_closed ended remote end_of_file
      (continues passed_on half_closed local end_of_file
        (continues got_data passed_on local wrote
          (continues opened got_data local (received (1 ∷ 2 ∷ [])) begins tt refl) tt refl)
        tt refl)
      tt refl

-- The third byte is on the wire when the write of two more bytes throws.
abbrev more_data : SessionState counting toy
more_data = value_or opened (read_side counting toy local passed_on (received (3 ∷ 4 ∷ [])))

abbrev torn : SessionState counting toy
torn = value_or opened (read_side counting toy local more_data (write_failed 1))

torn_reached : Reaches counting toy plain torn
unfolding read_side complete on_data on_local_data forward feed Processor.on_local_data
    Processor.pack Processor.copy write_next count_write cut_write on_done close_all flatten
torn_reached =
    continues more_data torn local (write_failed 1)
      (continues passed_on more_data local (received (3 ∷ 4 ∷ []))
        (continues got_data passed_on local wrote
          (continues opened got_data local (received (1 ∷ 2 ∷ [])) begins tt refl) tt refl)
        tt refl)
      tt refl

ends_closed_example : ended.closed ≡ true
unfolding read_side complete on_data flush on_local_data forward feed Processor.on_local_data
    Processor.pack Processor.copy flush_local flush_remote flush_forward flush_backward
    Processor.flush_local Processor.flush_remote write_next flush_next count_write on_done close_all
    flatten
ends_closed_example = ends_closed counting toy plain ended ended_reached refl refl

closing_logged_once_example :
    (ended.done_count ≡ done ended.local_half.reader + done ended.remote_half.reader)
    × (ended.conn_closes ≡ done ended.local_half.reader * done ended.remote_half.reader)
closing_logged_once_example = closing_logged_once counting toy plain ended ended_reached

written_in_order_example :
    ((rest : ByteVector) × (torn.local_half.produced ≡ on_wire torn.local_half ++ rest))
    × ((torn.local_half.eof ≡ false)
        ⊎ ((torn.local_half.produced ≡ torn.local_half.written) × (torn.local_half.cut ≡ [])))
    × ((torn.local_half.cut ≡ []) ⊎ (torn.closed ≡ true))
    × (torn.local_half.bytes ≡ u64 (length torn.local_half.written))
written_in_order_example = written_in_order counting toy plain torn local torn_reached
