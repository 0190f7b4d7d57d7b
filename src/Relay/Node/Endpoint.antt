-- ===== src/Relay/Node/Endpoint.antt =====
-- What the two nodes make of the address that they listen at or lead to.
use msg.Prelude.{
  ℕ, ◌%◌, ◌^◌, ◌≡◌, ap, ◌∙◌, Option, none, some, take, length, Result, ok, throws, system_error,
  ◌>>=◌,
}
use msg.Bytes.{ByteVector}
use msg.Tunnel.Text.{digits_from}
use msg.Tunnel.Launch.Addresses.{address_text, IsNumber, colon_found, ip_found, port_found}
use msg.Relay.Node.{endpoint_at, endpoint_of}

-- An address that `make_address` takes and a port in decimal give that address and the last 16 bits of
-- the port.
pub endpoint_of-address_text :
    {Address : Type 0} (make_address : ByteVector → Option Address) (ip ds : ByteVector)
    (a : Address)
    → IsNumber ds
    → make_address ip ≡ some a
    → endpoint_of make_address (address_text ip ds) ≡ ok (some (a, digits_from 0 ds % 2 ^ 16))
unfolding endpoint_of endpoint_at
endpoint_of-address_text {Address = Address} make_address ip ds a number e =
    let text = address_text ip ds in
    let finish : Option Address → ℕ → Result (Option (Address × ℕ)) =
      λ x port. elim x [ none ↦ throws system_error | some b ↦ ok (some (b, port)) ] in
    ap (endpoint_at make_address text) (colon_found ip ds number)
    ∙ ap (λ m. m >>= finish (make_address (take (length ip) text))) (port_found ip ds number)
    ∙ ap (λ x. finish x (digits_from 0 ds % 2 ^ 16)) (ap make_address (ip_found ip ds) ∙ e)
