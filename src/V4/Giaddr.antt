-- ===== src/V4/Giaddr.antt =====
-- dhcp/v4/giaddr.rs: the relay address of a message.
pub mod Decision
use dhcp_relay_agent.Common.{ℕ, ◌+◌, Bool, true, false, List, ◌==◌, leb, if◌then◌else◌, contains}
use dhcp_relay_agent.Net.{Ipv4Addr, ipv4_eq, unspecified4}
use dhcp_relay_agent.V4.Dhcproto.{Dhcproto}
use dhcp_relay_agent.V4.Option82.{has_opt82}

pub data GiaddrDecision : Type 0 where
  first_relay trusted_circuit untrusted_circuit spoof reforwarded : GiaddrDecision

module _ (d : Dhcproto) where
  unfoldable pub validate : d.Message → List Ipv4Addr → Bool → GiaddrDecision
  validate msg local_addrs is_trusted_circuit =
      if d.giaddr msg == unspecified4
      then (if has_opt82 d msg
          then (if is_trusted_circuit then trusted_circuit else untrusted_circuit)
          else first_relay)
      else if contains local_addrs (d.giaddr msg)
      then spoof
      else reforwarded

  unfoldable pub set_giaddr : Ipv4Addr → d.Message → d.Message
  set_giaddr iface_ip msg = d.set_giaddr iface_ip msg

unfoldable pub check_packet_size : ℕ → ℕ → ℕ → Bool
check_packet_size current_size option_len max_size = leb (current_size + option_len) max_size
