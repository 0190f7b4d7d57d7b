-- ===== src/Examples.antt =====
-- Tests of the definitions and instances of the theorems, at inputs that can be followed by hand.
mod Setup
mod Tunnels
mod Codecs
mod Sessions
mod Statistics
mod Relays
mod Providers
mod Visitors
mod Across
mod Launches
