-- ===== src/Peer.antt =====
-- crates/tsoracle-core/src/peer.rs: `PeerEndpoint`, as the bytes of its address.
use tsoracle.Prelude.{ℕ, List}

pub record PeerEndpoint : Type 0 where
  pub address : List ℕ
