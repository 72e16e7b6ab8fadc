-- ===== src/V6/Options/RemoteId.antt =====
-- dhcp/v6/remote_id.rs: the Remote-ID option, which dhcproto has no variant for.
use dhcp_relay_agent.Common.{Option, none, some, Bytes, ◌≡◌, ◌↔◌, arith, if◌then◌else◌}
use dhcp_relay_agent.V6.Dhcproto.{DhcprotoV6, IsDhcprotoV6, DhcpOption, interface_id, unknown, rest}

module _ (d : DhcprotoV6) where
  unfoldable pub encode : Bytes → DhcpOption d.OptionCode d.Rest
  encode id = unknown (record { code = d.remote_id_code; data_bytes = id })

  unfoldable pub decode : DhcpOption d.OptionCode d.Rest → Option Bytes
  decode (unknown unk) = if d.is_code unk.code d.remote_id_code then some unk.data_bytes else none
  decode _ = none

  -- An option is decoded to an identifier exactly if it is the one that the identifier is encoded
  -- to.
  pub remote_id_iff :
      (law : IsDhcprotoV6 d) (o : DhcpOption d.OptionCode d.Rest) (id : Bytes)
      → (decode o ≡ some id) ↔ (o ≡ encode id)
  unfolding decode encode
  remote_id_iff law (unknown u) id = ground (arith, law.is_code_iff u.code d.remote_id_code)
  remote_id_iff law (interface_id bytes) id = ground arith
  remote_id_iff law (rest o) id = ground arith
