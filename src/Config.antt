-- ===== src/Config.antt =====
-- config.rs: the configuration and its validation. Texts are their bytes; the serde attributes are
-- not modelled.
pub mod Validity
use dhcp_relay_agent.Common.{
  ℕ, Bool, true, false, Option, none, List, [], ◌∷◌, Bytes, length, is_empty, ok, err, ◌>>◌, ◌==◌,
  nat_eq, if◌then◌else◌, not,
}
use dhcp_relay_agent.Net.{SocketAddr}
use dhcp_relay_agent.Error.{text, number, RelayError, RelayResult}

abbrev pub vss_type_nvt_ascii : ℕ
vss_type_nvt_ascii = 0

abbrev pub vss_type_rfc2685_vpn_id : ℕ
vss_type_rfc2685_vpn_id = 1

abbrev pub vss_type_global : ℕ
vss_type_global = 255

pub record VssConfig : Type 0 where
  pub enabled : Bool
  pub vss_type : ℕ
  pub vss_info : Bytes
  pub vpn_name : Option Bytes

abbrev pub vss_default : VssConfig
vss_default = record { enabled = false; vss_type = vss_type_global; vss_info = []; vpn_name = none }

unfoldable pub validate_vss : VssConfig → RelayResult Unit
validate_vss vss =
    if vss.vss_type == vss_type_nvt_ascii
    then ok tt
    else if vss.vss_type == vss_type_rfc2685_vpn_id
    then (if not (length vss.vss_info == 7)
        then err (
            RelayError.config (
              text "VPN-ID (type 1) requires exactly 7 bytes, got "
              ∷ number (length vss.vss_info)
              ∷ []))
        else ok tt)
    else if vss.vss_type == vss_type_global
    then (if not (is_empty vss.vss_info)
        then err (RelayError.config (text "Global VSS (type 255) requires empty vss_info" ∷ []))
        else ok tt)
    else err (RelayError.config (text "unsupported VSS type: " ∷ number vss.vss_type ∷ []))

pub record InterfaceConfig : Type 0 where
  pub name : Bytes
  pub ip_addr : Bytes
  pub trusted : Bool
  pub enabled : Bool

pub record Dhcpv4Config : Type 0 where
  pub server_addrs : List SocketAddr
  pub enable_option82 : Bool
  pub circuit_id : Option Bytes
  pub remote_id : Option Bytes
  pub vss : VssConfig

abbrev pub dhcpv4_default : Dhcpv4Config
dhcpv4_default = record {
  server_addrs = [];
  enable_option82 = true;
  circuit_id = none;
  remote_id = none;
  vss = vss_default;
}

pub record Dhcpv6Config : Type 0 where
  pub server_addrs : List SocketAddr
  pub enable_interface_id : Bool
  pub enable_remote_id : Bool
  pub remote_id : Option Bytes
  pub vss : VssConfig

abbrev pub dhcpv6_default : Dhcpv6Config
dhcpv6_default = record {
  server_addrs = [];
  enable_interface_id = true;
  enable_remote_id = true;
  remote_id = none;
  vss = vss_default;
}

pub data DpdMode : Type 0 where
  i_dpd h_dpd : DpdMode

pub data HashFunction : Type 0 where
  murmur3 : HashFunction

pub record SmfConfig : Type 0 where
  pub enabled : Bool
  pub dpd_window_secs : ℕ
  pub dpd_mode : DpdMode
  pub hash_function : HashFunction

abbrev pub smf_default : SmfConfig
smf_default = record {
  enabled = false;
  dpd_window_secs = 10;
  dpd_mode = i_dpd;
  hash_function = murmur3;
}

pub record RelayConfig : Type 0 where
  pub interfaces : List InterfaceConfig
  pub dhcpv4 : Dhcpv4Config
  pub dhcpv6 : Dhcpv6Config
  pub smf : SmfConfig
  pub max_packet_size : ℕ

abbrev pub relay_default : RelayConfig
relay_default = record {
  interfaces = [];
  dhcpv4 = dhcpv4_default;
  dhcpv6 = dhcpv6_default;
  smf = smf_default;
  max_packet_size = 1500;
}

-- the loop over the interfaces
validate_names : List InterfaceConfig → RelayResult Unit
validate_names [] = ok tt
validate_names (iface ∷ rest) =
    let later = validate_names rest in
    if is_empty iface.name
    then err (RelayError.config (text "interface name cannot be empty" ∷ []))
    else later

abbrev validate_if_enabled : VssConfig → RelayResult Unit
validate_if_enabled vss = if vss.enabled then validate_vss vss else ok tt

unfoldable pub validate : RelayConfig → RelayResult Unit
unfolding validate_names validate_vss
validate cfg =
    if is_empty cfg.interfaces
    then err (RelayError.config (text "at least one interface is required" ∷ []))
    else do
      validate_names cfg.interfaces
      validate_if_enabled cfg.dhcpv4.vss
      validate_if_enabled cfg.dhcpv6.vss
      ok tt
