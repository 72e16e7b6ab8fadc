-- ===== src/Agent/Wire.antt =====
-- What the DHCPv6 tasks of lib.rs send, on the wire: `encapsulate` of dhcp/v6/relay_fwd.rs with the
-- addresses that `handle_v6_client` gives to it.
use dhcp_relay_agent.Common.{◌/◌, ◌%◌, ◌∷◌, ◌++◌, Bytes, ok, err, ◌≡◌, refl, length}
use dhcp_relay_agent.Net.{SocketAddr, IpAddr, v4, v6, Ipv4Addr, Ipv6Addr, unspecified6, octets6}
use dhcp_relay_agent.Error.{RelayResult, RelayError}
use dhcp_relay_agent.V6.RelayFwd.{peer_ip, encapsulate}
use dhcp_relay_agent.Agent.{link_addr}

-- The address that is written for a host: `::` for one that has an IPv4 address.
pub data IsIpv6Of : IpAddr → Ipv6Addr → Type 0 where
  is_v6 : (a : Ipv6Addr) → IsIpv6Of (v6 a) a
  is_v4 : (a : Ipv4Addr) → IsIpv6Of (v4 a) unspecified6

-- The address that is written for the relay, whose socket may have none.
pub data IsLinkOf : RelayResult SocketAddr → Ipv6Addr → Type 0 where
  bound_to : (s : SocketAddr) {a : Ipv6Addr} → IsIpv6Of s.ip a → IsLinkOf (ok s) a
  no_address : (e : RelayError) → IsLinkOf (err e) unspecified6

abbrev ipv6_or_none : IpAddr → Ipv6Addr
ipv6_or_none (v6 a) = a
ipv6_or_none (v4 a) = unspecified6

ipv6_or_none-IsIpv6Of : (ip : IpAddr) → IsIpv6Of ip (ipv6_or_none ip)
ipv6_or_none-IsIpv6Of (v6 a) = is_v6 a
ipv6_or_none-IsIpv6Of (v4 a) = is_v4 a

pub link_addr-IsLinkOf :
    (local_addr : RelayResult SocketAddr) → IsLinkOf local_addr (link_addr local_addr)
unfolding link_addr
link_addr-IsLinkOf (ok s) = bound_to s (ipv6_or_none-IsIpv6Of s.ip)
link_addr-IsLinkOf (err e) = no_address e

pub peer_ip-IsIpv6Of : (src : SocketAddr) → IsIpv6Of src.ip (peer_ip src)
peer_ip-IsIpv6Of src = ipv6_or_none-IsIpv6Of src.ip

-- A Relay-forward on the wire: its type, a hop count of 0, the link address, the peer address, and
-- one option, whose code is 9 and whose length is that of the message, in two bytes.
abbrev pub relay_forward : Ipv6Addr → Ipv6Addr → Bytes → Bytes
relay_forward link peer inner =
    12
    ∷ 0
    ∷ (octets6 link
        ++ (octets6 peer
            ++ (0 ∷ 9 ∷ length inner % 65536 / 256 ∷ length inner % 65536 % 256 ∷ inner)))

pub encapsulate-relay_forward :
    (inner : Bytes) (link : Ipv6Addr) (src : SocketAddr)
    → encapsulate inner link src ≡ relay_forward link (peer_ip src) inner
unfolding encapsulate
encapsulate-relay_forward inner link src = refl
