-- ===== src/Relay/Server.antt =====
-- Registration with the server, `run_server` of relay.cpp: REGISTER frames and the map of pairs.
pub mod Slots
use msg.Prelude.{
  ℕ, suc, ◌+◌, Bool, true, false, Option, none, some, List, [], ◌∷◌, length, get_or, take, ltb,
  ◌==◌, if◌then◌else◌,
}
use msg.Bytes.{Byte, ByteVector}
use msg.Bytes.Equal.{same}
use msg.Tunnel.Text.{find}
use msg.Relay.Frame.{Frame, register_method}

pub data Role : Type 0 where
  visitor : Role
  provider : Role

role_of : Byte → Option Role
role_of c = if c == b'B' then some visitor else if c == b'C' then some provider else none

named_role : ByteVector → Option Role → Option (ByteVector × Role)
named_role id none = none
named_role id (some role) = some (id, role)

-- "id B" or "id C", by the position of the space.
split_body : ByteVector → Option ℕ → Option (ByteVector × Role)
unfolding role_of named_role
split_body body none = none
split_body body (some sp) =
    if ltb (length body) (sp + 2)
    then none
    else named_role (take sp body) (role_of (get_or body (sp + 1) 0))

-- What the first frame of a connection registers; `none` drops the connection.
unfoldable pub parse_register : Frame → Option (ByteVector × Role)
unfolding split_body
parse_register frame =
    if frame.method == register_method then split_body frame.body (find b' ' frame.body) else none

-- `Match`: the connections, by number, in its two places.
pub record Match : Type 0 where
  pub b : Option ℕ
  pub c : Option ℕ

abbrev pub slot : Role → Match → Option ℕ
slot visitor m = m.b
slot provider m = m.c

abbrev pub fill : Role → ℕ → Match → Match
fill visitor n m = record m { b = some n }
fill provider n m = record m { c = some n }

-- `pairs`, the latest entry of an identifier first.
abbrev pub Pairing : Type 0
Pairing = List (ByteVector × Match)

-- `(*pairs)[id]`, which makes an empty entry where there is none.
unfoldable pub find_match : ByteVector → Pairing → Match
find_match id [] = record { b = none; c = none }
find_match id ((key, m) ∷ pairs) = if same key id then m else find_match id pairs

-- What a registration leads to: EOF_ to the new connection, nothing yet, or READY to both.
pub data Outcome : Type 0 where
  refused : Outcome
  waiting : Outcome
  ready : ℕ → ℕ → Outcome

unfoldable pub outcome : Match → Outcome
outcome m = elim m.b [ none ↦ waiting | some b ↦ elim m.c [ none ↦ waiting | some c ↦ ready b c ] ]

-- With what is in the place of the role.
unfoldable pub enter : Pairing → ℕ → ByteVector → Role → Match → Option ℕ → Pairing × Outcome
enter pairs n id role m (some k) = ((id, m) ∷ pairs, refused)
enter pairs n id role m none = ((id, fill role n m) ∷ pairs, outcome (fill role n m))

-- Connection number `n` registers.
unfoldable pub register : Pairing → ℕ → ByteVector → Role → Pairing × Outcome
unfolding enter
register pairs n id role = let m = find_match id pairs in enter pairs n id role m (slot role m)

-- Registrations one after the other. Nothing else in the server changes the map.
unfoldable pub registered : Pairing → List (ℕ × ByteVector × Role) → Pairing
registered pairs [] = pairs
registered pairs ((n, id, role) ∷ more) = registered (register pairs n id role).0 more
