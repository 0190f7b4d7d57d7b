-- ===== src/Tunnel.antt =====
-- The TCP tunnel: lib/src/tunnel.cpp and the stream processors of lib/src.
pub mod Stream
pub mod Text
pub mod Cfb
pub mod Padding
pub mod Nonce
pub mod Processor
pub mod Chain
pub mod Config
pub mod TwoHop
pub mod Session
pub mod Launch
pub mod Statistics
