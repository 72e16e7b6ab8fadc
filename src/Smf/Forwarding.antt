-- ===== src/Smf/Forwarding.antt =====
-- smf/forwarding.rs and smf/relay_set.rs.
pub mod Rules
use dhcp_relay_agent.Common.{
  ℕ, ◌/◌, Bool, true, false, ◌&&◌, not, List, Bytes, ◌==◌, nat_eq, leb, if◌then◌else◌, contains,
}
use dhcp_relay_agent.Net.{Ipv4Addr, IpAddr, v4, v6, is_multicast4, is_multicast6, ip_eq}
use dhcp_relay_agent.Traits.{RelaySetSelector}

unfoldable pub is_multicast : IpAddr → Bool
is_multicast (v4 ip) = is_multicast4 ip
is_multicast (v6 ip) = is_multicast6 ip

unfoldable pub is_link_local_multicast : IpAddr → Bool
is_link_local_multicast (v4 ip) = ip.a == 224 && ip.b == 0 && ip.c == 0
is_link_local_multicast (v6 ip) = ip.s0 == 0xff02

unfoldable pub check_forwarding_rules : IpAddr → IpAddr → ℕ → List IpAddr → Bool
unfolding is_multicast is_link_local_multicast
check_forwarding_rules src_addr dst_addr ttl local_addrs =
    if not (is_multicast dst_addr)
    then false
    else if leb ttl 1
    then false
    else if is_link_local_multicast dst_addr
    then false
    else if contains local_addrs src_addr
    then false
    else true

-- smf/relay_set.rs
unfoldable pub classic_flooding : RelaySetSelector
classic_flooding = record { should_forward = λ ingress_iface prev_hop src_addr dst_group. true }
