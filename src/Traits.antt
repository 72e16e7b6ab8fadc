-- ===== src/Traits.antt =====
-- traits/mod.rs: what an embedder provides to the multicast engine, as records of functions.
use dhcp_relay_agent.Common.{Bool, List, [], Bytes}
use dhcp_relay_agent.Net.{IpAddr}

pub record TopologyProvider : Type 0 where
  pub neighbors : Bytes → List IpAddr
  pub two_hop_neighbors : Bytes → List IpAddr

-- The default body of `two_hop_neighbors`.
abbrev pub no_two_hop_neighbors : Bytes → List IpAddr
no_two_hop_neighbors interface = []

pub record RelaySetSelector : Type 0 where
  pub should_forward : Bytes → IpAddr → IpAddr → IpAddr → Bool
