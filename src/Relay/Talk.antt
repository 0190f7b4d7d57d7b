-- ===== src/Relay/Talk.antt =====
-- The frames that a node sends for one session: an opening, the bytes of its peer in DATA frames, and
-- at most one frame that ends them.
use msg.Prelude.{
  ◌≡◌, sym, ap, ap₂, ◌∙◌, List, [], ◌∷◌, ◌++◌, map, flatten, append-nil, flatten-append,
}
use mathlib.Core.List.{map-append}
use msg.Bytes.{ByteVector}
use msg.Relay.Frame.{
  Frame, build_uuid_data_body, session_ok_method, session_err_method, new_session_method,
  data_method, data_eof_method, session_close_method,
}

abbrev pub ok_frame : ByteVector → Frame
ok_frame uuid = record { method = session_ok_method; body = uuid }

abbrev pub err_frame : ByteVector → Frame
err_frame uuid = record { method = session_err_method; body = uuid }

abbrev pub new_session_frame : ByteVector → Frame
new_session_frame uuid = record { method = new_session_method; body = uuid }

abbrev pub data_frame : ByteVector → ByteVector → Frame
data_frame uuid bytes = record { method = data_method; body = build_uuid_data_body uuid bytes }

abbrev pub eof_frame : ByteVector → Frame
eof_frame uuid = record { method = data_eof_method; body = uuid }

abbrev pub close_frame : ByteVector → Frame
close_frame uuid = record { method = session_close_method; body = uuid }

-- The frames `sent`, when `received` is all that the peer has brought.
pub record Talk (opening : Frame) (uuid : ByteVector) (sent : List Frame) (received : ByteVector)
    (tail : List Frame) : Type 0 where
  pub chunks : List ByteVector
  pub sent_eq : sent ≡ (opening ∷ map (data_frame uuid) chunks) ++ tail
  pub received_eq : received ≡ flatten chunks

module _ {opening : Frame} {uuid : ByteVector} {sent : List Frame} {received : ByteVector} where
  pub first_word : sent ≡ [] → received ≡ [] → Talk opening uuid (sent ++ opening ∷ []) received []
  unfolding flatten
  first_word none_sent none_read = record {
    chunks = [];
    sent_eq = ap (λ fs. fs ++ opening ∷ []) none_sent;
    received_eq = none_read;
  }

  pub next_word :
      (bytes : ByteVector)
      → Talk opening uuid sent received []
      → Talk opening uuid (sent ++ data_frame uuid bytes ∷ []) (received ++ bytes) []
  unfolding flatten
  next_word bytes k = record {
    chunks = k.chunks ++ bytes ∷ [];
    sent_eq =
        ap (λ fs. fs ++ data_frame uuid bytes ∷ [])
          (k.sent_eq ∙ append-nil (opening ∷ map (data_frame uuid) k.chunks))
        ∙ ap (◌∷◌ opening) (sym (map-append (data_frame uuid) k.chunks (bytes ∷ [])))
        ∙ sym (append-nil (opening ∷ map (data_frame uuid) (k.chunks ++ bytes ∷ [])));
    received_eq =
        ap₂ (λ a b. a ++ b) k.received_eq (sym (append-nil bytes))
        ∙ sym (flatten-append k.chunks (bytes ∷ []));
  }

  pub last_word :
      (f : Frame)
      → Talk opening uuid sent received []
      → Talk opening uuid (sent ++ f ∷ []) received (f ∷ [])
  last_word f k = record {
    chunks = k.chunks;
    sent_eq =
        ap (λ fs. fs ++ f ∷ []) (k.sent_eq ∙ append-nil (opening ∷ map (data_frame uuid) k.chunks));
    received_eq = k.received_eq;
  }
