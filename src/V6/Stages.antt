-- ===== src/V6/Stages.antt =====
-- The stages of dhcp/v6/pipeline.rs, each `process` as an action on the context, and `build_request`
-- and `build_reply`.
use Prim.Native.String.{String}
use dhcp_relay_agent.Common.{
  ℕ, Bool, true, Option, none, some, List, [], ◌∷◌, ◌++◌, Bytes, ascii, ok, map_err, ◌==◌, nat_eq,
  list_eq, if◌then◌else◌, not,
}
use dhcp_relay_agent.Common.Utf8.{from_utf8_or_empty}
use dhcp_relay_agent.Net.{Ipv6Addr, SocketAddr}
use dhcp_relay_agent.Error.{text, RelayError}
use dhcp_relay_agent.Config.{VssConfig, vss_type_nvt_ascii}
use dhcp_relay_agent.Pipeline.{
  PipelineContext, Action, pure, lift, gets, modify_ctx, notice, vpn_mismatch, ◌>>=◌, ◌>>◌,
  put_metadata, modify, Stage, Pipeline, with_stages,
}
use dhcp_relay_agent.V6.Dhcproto.{DhcprotoV6, DhcpOption}
use dhcp_relay_agent.V6.RelayFwd.{encapsulate, decapsulate}
use dhcp_relay_agent.V6.Options.InterfaceId
use dhcp_relay_agent.V6.Options.RemoteId
use dhcp_relay_agent.V6.Options.Vss

abbrev pub set_buffer : Bytes → PipelineContext → PipelineContext
set_buffer b c = record c { buffer = b }

-- The name of the VPN in the reply, compared with the configured one.
unfoldable pub compare_vpn : VssConfig → Option (ℕ × Bytes) → Action Unit
compare_vpn vss none = pure tt
compare_vpn vss (some (vss_type, vss_info)) = elim vss.vpn_name [
  | none ↦ pure tt
  | some expected ↦
      if vss_type == vss_type_nvt_ascii
      then (let vpn_name = from_utf8_or_empty vss_info in
          if not (vpn_name == expected) then notice (vpn_mismatch vpn_name expected) else pure tt)
      else pure tt
]

unfoldable pub put_interface : Option Bytes → Action Unit
put_interface none = pure tt
put_interface (some name) = put_metadata (ascii "outbound_interface") name

module _ (d : DhcprotoV6) where
  -- `v6::Message::decode` of the buffer, with the stage's text in the error.
  unfoldable pub read_v6 : String → Action d.Message
  read_v6 prefix = do
    buffer ← gets (λ c. c.buffer)
    lift (map_err (λ e. RelayError.parse (text prefix ∷ e)) (d.decode buffer))

  -- A stage that puts an option into the message, as two of them do.
  unfoldable pub add_option : String → DhcpOption d.OptionCode d.Rest → Action Unit
  add_option stage opt = modify d.decode d.encode stage (λ msg. ok (d.insert_opt opt msg))

  unfoldable pub parse_stage : Stage
  unfolding read_v6
  parse_stage = record {
    name = "dhcpv6::parse";
    process = (do msg ← read_v6 "failed to parse DHCPv6 message: "; pure true);
  }

  unfoldable pub interface_id_stage : Bytes → Stage
  unfolding add_option
  interface_id_stage iface_name = record {
    name = "dhcpv6::interface_id";
    process = (do add_option "dhcpv6::interface_id" (InterfaceId.encode d iface_name); pure true);
  }

  unfoldable pub remote_id_stage : Bytes → Stage
  unfolding add_option
  remote_id_stage remote_id = record {
    name = "dhcpv6::remote_id";
    process = (do add_option "dhcpv6::remote_id" (RemoteId.encode d remote_id); pure true);
  }

  -- The first option that is an Interface-ID.
  unfoldable pub first_name : List (DhcpOption d.OptionCode d.Rest) → Option Bytes
  first_name [] = none
  first_name (opt ∷ rest) =
      let later = first_name rest in
      elim (InterfaceId.decode d opt) [ some name ↦ some name | none ↦ later ]

  unfoldable pub interface_id_extract_stage : Stage
  unfolding read_v6 put_interface first_name
  interface_id_extract_stage = record {
    name = "dhcpv6::interface_id_extract";
    process = do
      msg ← read_v6 "interface-id extract decode: "
      put_interface (first_name (d.iter msg))
      pure true;
  }

  unfoldable pub vss_insert_stage : VssConfig → Stage
  unfolding add_option
  vss_insert_stage vss = record {
    name = "dhcpv6::vss::insert";
    process = if not vss.enabled then pure true else do
      vss_opt ← lift (Vss.encode d vss)
      add_option "dhcpv6::vss::insert" vss_opt
      put_metadata (ascii "vss_inserted") (ascii "true")
      pure true;
  }

  unfoldable pub vss_extract_stage : VssConfig → Stage
  unfolding read_v6 compare_vpn
  vss_extract_stage vss = record {
    name = "dhcpv6::vss::extract";
    process = if not vss.enabled then pure true else do
      msg ← read_v6 "v6 vss extract decode: "
      compare_vpn vss (Vss.extract d (d.iter msg))
      pure true;
  }

unfoldable pub relay_fwd_stage : Ipv6Addr → SocketAddr → Stage
relay_fwd_stage link_addr peer_addr = record {
  name = "dhcpv6::relay_fwd";
  process = do
    buffer ← gets (λ c. c.buffer)
    modify_ctx (set_buffer (encapsulate buffer link_addr peer_addr))
    pure true;
}

unfoldable pub relay_reply_stage : Stage
relay_reply_stage = record {
  name = "dhcpv6::relay_reply";
  process = do
    buffer ← gets (λ c. c.buffer)
    inner ← lift (decapsulate buffer)
    modify_ctx (set_buffer inner)
    pure true;
}

unfoldable pub forward_stage : SocketAddr → Stage
forward_stage dest = record {
  name = "dhcpv6::forward";
  process = (do modify_ctx (λ c. record c { dst_addr = some dest }); pure true);
}

-- The stage of an optional part.
abbrev pub optional : Option VssConfig → (VssConfig → Stage) → List Stage
optional none stage = []
optional (some a) stage = stage a ∷ []

abbrev pub enabled : Bool → Stage → List Stage
enabled flag stage = if flag then stage ∷ [] else []

unfoldable pub build_request :
    DhcprotoV6
    → Bytes
    → Bytes
    → Ipv6Addr
    → SocketAddr
    → SocketAddr
    → Option VssConfig
    → Bool
    → Bool
    → Pipeline
build_request d iface_name remote_id link_addr peer_addr server_addr vss_config enable_interface_id
      enable_remote_id =
    with_stages (
      parse_stage d
      ∷ (enabled enable_interface_id (interface_id_stage d iface_name)
          ++ (enabled enable_remote_id (remote_id_stage d remote_id)
              ++ (optional vss_config (vss_insert_stage d)
                  ++ (relay_fwd_stage link_addr peer_addr ∷ forward_stage server_addr ∷ [])))))

unfoldable pub build_reply : DhcprotoV6 → SocketAddr → Option VssConfig → Pipeline
build_reply d client_addr vss_config = with_stages (
    parse_stage d
    ∷ (optional vss_config (vss_extract_stage d)
        ++ (relay_reply_stage ∷ interface_id_extract_stage d ∷ forward_stage client_addr ∷ [])))
