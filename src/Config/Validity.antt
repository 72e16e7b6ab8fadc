-- ===== src/Config/Validity.antt =====
-- When `validate` and `validate_vss` of config.rs accept, as a predicate of its own.
use dhcp_relay_agent.Common.{◌≡◌, ◌≢◌, ◌↔◌, ◌⊎◌, true, List, [], ◌∷◌, All, length, ok, arith}
use dhcp_relay_agent.Config.{
  VssConfig, InterfaceConfig, RelayConfig, validate_vss, validate_names, validate_if_enabled,
  validate,
}

-- Type 0 carries any text, type 1 a VPN-ID of seven bytes, type 255 nothing (RFC 6607).
abbrev pub IsValidVss : VssConfig → Type 0
IsValidVss vss =
    (vss.vss_type ≡ 0)
    ⊎ ((vss.vss_type ≡ 1) × (length vss.vss_info ≡ 7))
    ⊎ ((vss.vss_type ≡ 255) × (vss.vss_info ≡ []))

pub validate_vss_iff : (vss : VssConfig) → (validate_vss vss ≡ ok tt) ↔ IsValidVss vss
unfolding validate_vss
validate_vss_iff vss = ground arith

abbrev pub HasName : InterfaceConfig → Type 0
HasName iface = iface.name ≢ []

pub record IsValid (cfg : RelayConfig) : Type 0 where
  pub some_interface : cfg.interfaces ≢ []
  pub named : All HasName cfg.interfaces
  pub vss4 : cfg.dhcpv4.vss.enabled ≡ true → IsValidVss cfg.dhcpv4.vss
  pub vss6 : cfg.dhcpv6.vss.enabled ≡ true → IsValidVss cfg.dhcpv6.vss

validate_names_iff :
    (ifaces : List InterfaceConfig) → (validate_names ifaces ≡ ok tt) ↔ All HasName ifaces
unfolding validate_names
validate_names_iff [] = ground arith
validate_names_iff (iface ∷ rest) = ground (arith, validate_names_iff rest)

validate_if_enabled_iff :
    (vss : VssConfig) → (validate_if_enabled vss ≡ ok tt) ↔ (vss.enabled ≡ true → IsValidVss vss)
validate_if_enabled_iff vss = ground (arith, validate_vss_iff vss)

-- A configuration is accepted exactly if it has an interface, every interface has a name, and the
-- VSS settings of each protocol version that enables them are valid.
pub validate-ok_iff : (cfg : RelayConfig) → (validate cfg ≡ ok tt) ↔ IsValid cfg
unfolding validate
validate-ok_iff cfg = ground (
  arith,
  validate_names_iff cfg.interfaces,
  validate_vss_iff cfg.dhcpv4.vss,
  validate_vss_iff cfg.dhcpv6.vss,
)
