-- ===== src/Relay/Provider/Arriving.antt =====
-- A DATA frame that arrives at the provider, with an identifier of the protocol's length.
use msg.Prelude.{
  ◌≡◌, sym, ap, ◌∙◌, true, false, none, [], ◌∷◌, ◌++◌, length, take-append, drop-append, append-nil,
  length-append, ltb, le→ltb, if◌then◌else◌, arith,
}
use msg.Bytes.{ByteVector}
use msg.Bytes.Table.{lookup}
use msg.Relay.Frame.{build_uuid_data_body, uuid_bytes}
use msg.Relay.Talk.{data_frame}
use msg.Relay.Provider.{Provider, take_data, take_frame}

body_append : (uuid bytes : ByteVector) → build_uuid_data_body uuid bytes ≡ uuid ++ bytes
unfolding build_uuid_data_body
body_append uuid [] = sym (append-nil uuid)
body_append uuid (b ∷ bs) =
    let full : ltb 0 (length (b ∷ bs)) ≡ true = ground arith in
    ap (λ t. if t then uuid ++ b ∷ bs else uuid) full

-- The two parts of the body, as the source cuts them.
pub take_frame_data :
    (p : Provider) (uuid bytes : ByteVector)
    → length uuid ≡ uuid_bytes
    → take_frame p (data_frame uuid bytes) ≡ take_data p bytes (lookup uuid p.sessions)
unfolding take_frame
take_frame_data p uuid bytes h =
    let long : ltb (length (uuid ++ bytes)) uuid_bytes ≡ false =
      le→ltb (length (uuid ++ bytes)) uuid_bytes (omega (arith, length-append uuid bytes)) in
    rw (
      body_append uuid bytes,
      long,
      take-append uuid_bytes uuid bytes h,
      drop-append uuid_bytes uuid bytes h,
    )

-- For an identifier that has no entry, the frame is dropped.
pub data_for_nobody :
    (p : Provider) (uuid bytes : ByteVector)
    → length uuid ≡ uuid_bytes
    → lookup uuid p.sessions ≡ none
    → take_frame p (data_frame uuid bytes) ≡ p
unfolding take_data
data_for_nobody p uuid bytes h missing =
    take_frame_data p uuid bytes h ∙ ap (take_data p bytes) missing
