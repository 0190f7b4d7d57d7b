-- ===== src/Relay.antt =====
-- The relay of lib/src/relay.cpp: the frames of its protocol, and the server between two nodes.
pub mod Frame
pub mod Pump
pub mod Pair
pub mod Server
pub mod Uuid
pub mod Writes
pub mod Node
pub mod Talk
pub mod Provider
pub mod Visitor
pub mod Across
