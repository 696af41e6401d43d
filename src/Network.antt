-- ===== src/Network.antt =====
-- network/network_sync.cpp: what is replicated of a component, how packets are laid out, and the server's state.
pub mod Plan
pub mod Mask
pub mod Packets
pub mod Replication
pub mod Client
