-- ===== src/Agent/Setup.antt =====
-- What `V4SpawnContext::from_inner`, `V6SpawnContext::from_inner` and the set-up of the tasks in
-- lib.rs take from the configuration. `bind_addr` is the address that the transport is bound to.
use dhcp_relay_agent.Common.{Option, none, some, List, [], ◌∷◌, ◌++◌, Bytes, ◌≡◌, refl}
use dhcp_relay_agent.Net.{Ipv4Addr, SocketAddr, unspecified4}
use dhcp_relay_agent.Net.Text.{split, first_piece, parse_ipv4}
use dhcp_relay_agent.Net.Text.RoundTrip.{
  show_ipv4, IsOctets, parse_ipv4-show_ipv4, first_piece-show_ipv4,
}
use dhcp_relay_agent.Error.{RelayResult}
use dhcp_relay_agent.Config.{RelayConfig, InterfaceConfig}
use dhcp_relay_agent.Agent.Receive.{V4Task, V6Task}

-- `i.ip_addr.split(':').next()?.parse().ok()`
unfoldable pub address_of : InterfaceConfig → Option Ipv4Addr
address_of i = parse_ipv4 (first_piece (split b':' i.ip_addr))

abbrev onto : Option Ipv4Addr → List Ipv4Addr → List Ipv4Addr
onto none rest = rest
onto (some a) rest = a ∷ rest

-- `filter_map` over the interfaces
unfoldable pub local_addrs : List InterfaceConfig → List Ipv4Addr
unfolding address_of
local_addrs [] = []
local_addrs (i ∷ is) = onto (address_of i) (local_addrs is)

abbrev or_unspecified : Option Ipv4Addr → Ipv4Addr
or_unspecified none = unspecified4
or_unspecified (some a) = a

-- `server_addrs.first().copied().unwrap_or(bind_addr)`
unfoldable pub server_or : List SocketAddr → SocketAddr → SocketAddr
server_or [] bind_addr = bind_addr
server_or (a ∷ _) bind_addr = a

unfoldable pub v4_task_of : RelayConfig → InterfaceConfig → SocketAddr → V4Task
unfolding local_addrs server_or
v4_task_of cfg iface bind_addr = record {
  enable_option82 = cfg.dhcpv4.enable_option82;
  vss_enabled = cfg.dhcpv4.vss.enabled;
  vss_cfg = cfg.dhcpv4.vss;
  circuit_id = cfg.dhcpv4.circuit_id;
  remote_id = cfg.dhcpv4.remote_id;
  local_addrs = local_addrs cfg.interfaces;
  iface_name = iface.name;
  iface_ip = or_unspecified (address_of iface);
  server_addr = server_or cfg.dhcpv4.server_addrs bind_addr;
}

abbrev or_empty : Option Bytes → Bytes
or_empty none = []
or_empty (some b) = b

unfoldable pub v6_task_of :
    RelayConfig → InterfaceConfig → SocketAddr → RelayResult SocketAddr → V6Task
unfolding server_or
v6_task_of cfg iface bind_addr local_addr = record {
  enable_interface_id = cfg.dhcpv6.enable_interface_id;
  enable_remote_id = cfg.dhcpv6.enable_remote_id;
  vss_enabled = cfg.dhcpv6.vss.enabled;
  vss_cfg = cfg.dhcpv6.vss;
  remote_id = or_empty cfg.dhcpv6.remote_id;
  iface_name = iface.name;
  server_addr = server_or cfg.dhcpv6.server_addrs bind_addr;
  local_addr = local_addr;
}

-- An interface is configured with this address, alone or with a port.
pub data HasAddress (ip : Ipv4Addr) (i : InterfaceConfig) : Type 0 where
  bare : IsOctets ip → i.ip_addr ≡ show_ipv4 ip → HasAddress ip i
  with_port :
      (port : Bytes) → IsOctets ip → i.ip_addr ≡ show_ipv4 ip ++ b':' ∷ port → HasAddress ip i

address_of-HasAddress :
    (ip : Ipv4Addr) (i : InterfaceConfig) → HasAddress ip i → address_of i ≡ some ip
unfolding address_of
address_of-HasAddress ip i (bare octets e) =
    rw (e, (first_piece-show_ipv4 ip [] octets).0) (parse_ipv4-show_ipv4 ip octets)
address_of-HasAddress ip i (with_port port octets e) =
    rw (e, (first_piece-show_ipv4 ip port octets).1) (parse_ipv4-show_ipv4 ip octets)

-- Each interface has an address.
pub data HaveAddresses : List Ipv4Addr → List InterfaceConfig → Type 0 where
  no_interface : HaveAddresses [] []
  interface :
      {ip : Ipv4Addr} {ips : List Ipv4Addr} {i : InterfaceConfig} {is : List InterfaceConfig}
      → HasAddress ip i
      → HaveAddresses ips is
      → HaveAddresses (ip ∷ ips) (i ∷ is)

local_addrs-HaveAddresses :
    {ips : List Ipv4Addr} {is : List InterfaceConfig} → HaveAddresses ips is → local_addrs is ≡ ips
unfolding local_addrs
local_addrs-HaveAddresses no_interface = refl
local_addrs-HaveAddresses (interface {ip} {ips} {i} {is} h hs) =
    rw (address_of-HasAddress ip i h, local_addrs-HaveAddresses hs)

-- If every interface is configured with an IPv4 address, alone or with a port, then a DHCPv4 task
-- takes exactly these addresses, in their order, for the local ones, and its interface's own one
-- for the relay address.
pub v4_task_of-addresses :
    (cfg : RelayConfig) (iface : InterfaceConfig) (bind_addr : SocketAddr) (ip : Ipv4Addr)
    (ips : List Ipv4Addr)
    → HaveAddresses ips cfg.interfaces
    → HasAddress ip iface
    → ((v4_task_of cfg iface bind_addr).local_addrs ≡ ips)
      × ((v4_task_of cfg iface bind_addr).iface_ip ≡ ip)
unfolding v4_task_of
v4_task_of-addresses cfg iface bind_addr ip ips hs h =
    (local_addrs-HaveAddresses hs, rw (address_of-HasAddress ip iface h))
