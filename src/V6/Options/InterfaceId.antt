-- ===== src/V6/Options/InterfaceId.antt =====
-- dhcp/v6/interface_id.rs: the Interface-ID option.
use dhcp_relay_agent.Common.{Option, none, some, Bytes, ◌≡◌, ◌↔◌, arith, true}
use dhcp_relay_agent.Common.Utf8.{from_utf8, utf8_from, start}
use dhcp_relay_agent.V6.Dhcproto.{DhcprotoV6, DhcpOption, interface_id, unknown, rest}

module _ (d : DhcprotoV6) where
  unfoldable pub encode : Bytes → DhcpOption d.OptionCode d.Rest
  encode name = interface_id name

  unfoldable pub decode : DhcpOption d.OptionCode d.Rest → Option Bytes
  unfolding from_utf8
  decode (interface_id bytes) = from_utf8 bytes
  decode _ = none

  -- An option is decoded to a name exactly if it is the one that the name is encoded to, and the
  -- name is UTF-8.
  pub interface_name_iff :
      (o : DhcpOption d.OptionCode d.Rest) (name : Bytes)
      → (decode o ≡ some name) ↔ ((o ≡ encode name) × (utf8_from (some start) name ≡ true))
  unfolding decode encode
  interface_name_iff (interface_id bytes) name = ground arith
  interface_name_iff (unknown u) name = ground arith
  interface_name_iff (rest o) name = ground arith
