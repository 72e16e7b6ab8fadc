-- ===== src/Smf/Engine.antt =====
-- smf/engine.rs: the multicast forwarding engine. The cache is behind an `Arc` and shared with the
-- eviction task; `process_packet` does not touch it.
pub mod Forwards
use dhcp_relay_agent.Common.{
  ℕ, ◌+◌, ◌-◌, ◌*◌, Bool, Option, none, some, List, Bytes, ok, not, ltb, if◌then◌else◌, length, set,
}
use dhcp_relay_agent.Net.{IpAddr, v4, v6}
use dhcp_relay_agent.Error.{RelayResult}
use dhcp_relay_agent.Config.{SmfConfig}
use dhcp_relay_agent.Traits.{RelaySetSelector}
use dhcp_relay_agent.Smf.Forwarding.{check_forwarding_rules, classic_flooding}
use dhcp_relay_agent.Smf.Dpd
use dhcp_relay_agent.Smf.Dpd.{DpdCache, second, eviction_interval}

pub record SmfEngine : Type 0 where
  pub dpd_cache : DpdCache
  pub relay_selector : RelaySetSelector
  pub local_addrs : List IpAddr

unfoldable pub new : SmfConfig → List IpAddr → SmfEngine
unfolding classic_flooding
new config local_addrs = record {
  dpd_cache = Dpd.new (config.dpd_window_secs * second);
  relay_selector = classic_flooding;
  local_addrs = local_addrs;
}

-- The interval of the eviction task that is spawned, if one is.
unfoldable pub start_eviction : SmfEngine → Option ℕ
unfolding eviction_interval
start_eviction e = eviction_interval e.dpd_cache

unfoldable pub with_relay_selector : RelaySetSelector → SmfEngine → SmfEngine
with_relay_selector selector e = record e { relay_selector = selector }

-- The offset of the TTL in an IPv4 header, of the hop limit in an IPv6 header.
abbrev pub ttl_offset : IpAddr → ℕ
ttl_offset (v4 ip) = 8
ttl_offset (v6 ip) = 7

unfoldable pub decrement_ttl : Bytes → IpAddr → ℕ → Bytes
decrement_ttl packet addr ttl =
    let offset = ttl_offset addr in
    if ltb offset (length packet) then set packet offset (ttl - 1) else packet

unfoldable pub process_packet :
    SmfEngine → Bytes → IpAddr → IpAddr → ℕ → Bytes → IpAddr → RelayResult (Option Bytes)
process_packet e packet src_addr dst_addr ttl ingress_iface prev_hop =
    if not (check_forwarding_rules src_addr dst_addr ttl e.local_addrs)
    then ok none
    else if not (e.relay_selector.should_forward ingress_iface prev_hop src_addr dst_addr)
    then ok none
    else ok (some (decrement_ttl packet dst_addr ttl))
