-- ===== src/V4/Stages.antt =====
-- The stages of dhcp/v4/pipeline.rs, each `process` as an action on the context.
use Prim.Native.String.{String}
use dhcp_relay_agent.Common.{
  Bool, true, false, Option, none, some, List, [], ◌∷◌, Bytes, ascii, ok, err, map_err, ◌==◌,
  nat_eq, list_eq, if◌then◌else◌, ◌&&◌, not, is_empty, drop,
}
use dhcp_relay_agent.Common.Utf8.{from_utf8_or_empty}
use dhcp_relay_agent.Net.{Ipv4Addr, ipv4, v4, SocketAddr, socket, unspecified4, ipv4_eq}
use dhcp_relay_agent.Error.{text, address, RelayError, RelayResult}
use dhcp_relay_agent.Config.{VssConfig, vss_type_nvt_ascii}
use dhcp_relay_agent.Pipeline.{
  PipelineContext, Action, pure, raise, lift, gets, modify_ctx, notice, untrusted_circuit,
  spoof_detected, vss_unsupported, vpn_mismatch, ◌>>=◌, ◌>>◌, put_metadata, modify, Stage,
}
use dhcp_relay_agent.V4.Dhcproto.{Dhcproto, RelayInfo, unknown}
use dhcp_relay_agent.V4.Option82
use dhcp_relay_agent.V4.Option82.{SubOption, validate_echo, sub_opts, agent_info}
use dhcp_relay_agent.V4.Giaddr
use dhcp_relay_agent.V4.Giaddr.{
  GiaddrDecision, first_relay, trusted_circuit, untrusted_circuit as untrusted, spoof, reforwarded,
}
use dhcp_relay_agent.V4.Vss.{encode_sub_opts, subopt_header_len, vss_type_offset}

abbrev set_dst_addr : SocketAddr → PipelineContext → PipelineContext
set_dst_addr dst c = record c { dst_addr = some dst }

-- A client's own address, or broadcast while it has none.
abbrev pub client_addr : Ipv4Addr → SocketAddr
client_addr ciaddr =
    if ciaddr == unspecified4 then socket (v4 (ipv4 255 255 255 255)) 68 else socket (v4 ciaddr) 68

abbrev set_reforwarded : PipelineContext → PipelineContext
set_reforwarded c = record c { is_reforwarded = true }

-- The name of the VPN in the reply's VSS information, compared with the configured one.
unfoldable pub compare_vpn : VssConfig → Option Bytes → Action Unit
compare_vpn vss (some info_data) = elim vss.vpn_name [
  | none ↦ pure tt
  | some expected ↦
      if not (is_empty info_data) && vss.vss_type == vss_type_nvt_ascii
      then (let vpn_name = from_utf8_or_empty (drop vss_type_offset info_data) in
          if vpn_name == expected then pure tt else notice (vpn_mismatch vpn_name expected))
      else pure tt
]
compare_vpn vss none = pure tt

module _ (d : Dhcproto) where
  abbrev pub modify_v4 : String → (d.Message → RelayResult d.Message) → Action Unit
  modify_v4 = modify d.decode d.encode

  -- `v4::Message::decode` of the buffer, with the stage's text in the error.
  unfoldable pub read_v4 : String → Action d.Message
  read_v4 prefix = do
    buffer ← gets (λ c. c.buffer)
    lift (map_err (λ e. RelayError.parse (text prefix ∷ e)) (d.decode buffer))

  unfoldable pub parse_stage : Stage
  parse_stage = record {
    name = "dhcpv4::parse";
    process = (do modify_v4 "dhcpv4::parse" (λ msg. ok msg); pure true);
  }

  unfoldable pub act_on : d.Message → GiaddrDecision → Action Bool
  act_on msg first_relay = pure true
  act_on msg trusted_circuit = pure true
  act_on msg reforwarded = do modify_ctx set_reforwarded; pure true
  act_on msg untrusted = do
    interface ← gets (λ c. c.interface)
    notice (untrusted_circuit interface)
    pure false
  act_on msg spoof = do
    notice (spoof_detected (d.giaddr msg))
    raise (
        RelayError.giaddr_spoof
          (text "giaddr " ∷ address (d.giaddr msg) ∷ text " matches local interface" ∷ []))

  unfoldable pub validate_stage : List Ipv4Addr → Stage
  unfolding act_on read_v4
  validate_stage local_addrs = record {
    name = "dhcpv4::validate";
    process = do
      msg ← read_v4 "validate decode: "
      trusted ← gets (λ c. c.is_trusted_circuit)
      act_on msg (Giaddr.validate d msg local_addrs trusted);
  }

  -- A stage that does nothing to a packet that another relay has forwarded.
  abbrev pub unless_reforwarded : Action Bool → Action Bool
  unless_reforwarded body = do skip ← gets (λ c. c.is_reforwarded); if skip then pure true else body

  unfoldable pub option82_insert_stage : Option Bytes → Option Bytes → Stage
  option82_insert_stage circuit_id remote_id = record {
    name = "dhcpv4::option82::insert";
    process = unless_reforwarded do
      modify_v4 "dhcpv4::option82::insert" (Option82.insert d circuit_id remote_id)
      put_metadata (ascii "option82_inserted") (ascii "true")
      pure true;
  }

  unfoldable pub strip_checked : Option (List SubOption) → d.Message → RelayResult d.Message
  strip_checked none msg = ok (Option82.strip d msg).1
  strip_checked (some expected) msg = elim (agent_info d msg) [
    | none ↦ err RelayError.option82_mismatch
    | some info ↦
        if not (validate_echo (sub_opts d info) expected)
        then err RelayError.option82_mismatch
        else ok (Option82.strip d msg).1
  ]

  unfoldable pub option82_strip_stage : Option (List SubOption) → Stage
  unfolding strip_checked
  option82_strip_stage expected = record {
    name = "dhcpv4::option82::strip";
    process = (do modify_v4 "dhcpv4::option82::strip" (strip_checked expected); pure true);
  }

  unfoldable pub set_giaddr_if_unset : Ipv4Addr → d.Message → RelayResult d.Message
  set_giaddr_if_unset iface_ip msg =
      if d.giaddr msg == unspecified4 then ok (d.set_giaddr iface_ip msg) else ok msg

  unfoldable pub giaddr_stage : Ipv4Addr → Stage
  unfolding set_giaddr_if_unset
  giaddr_stage iface_ip = record {
    name = "dhcpv4::giaddr";
    process = unless_reforwarded do
      modify_v4 "dhcpv4::giaddr" (set_giaddr_if_unset iface_ip)
      pure true;
  }

  unfoldable pub reply_addr_stage : Stage
  unfolding read_v4
  reply_addr_stage = record {
    name = "dhcpv4::reply_addr";
    process = do
      msg ← read_v4 "reply_addr decode: "
      modify_ctx (set_dst_addr (client_addr (d.ciaddr msg)))
      pure true;
  }

  -- Both sub-options are put into option 82, if the message has one.
  unfoldable pub insert_vss : Bytes → d.Message → RelayResult d.Message
  insert_vss payload msg = elim (agent_info d msg) [
    | none ↦ ok msg
    | some info ↦
        let vss = unknown (record { code = d.virtual_subnet; bytes = payload }) in
        let control = unknown (record { code = d.virtual_subnet_control; bytes = [] }) in
        ok (d.insert_opt (d.agent_option (d.insert_info control (d.insert_info vss info))) msg)
  ]

  unfoldable pub vss_insert_stage : VssConfig → Stage
  unfolding insert_vss encode_sub_opts
  vss_insert_stage vss = record {
    name = "dhcpv4::vss::insert";
    process = if not vss.enabled then pure true else do
      encoded ← lift (encode_sub_opts vss)
      modify_v4 "dhcpv4::vss::insert" (insert_vss (drop subopt_header_len encoded.0))
      put_metadata (ascii "vss_inserted") (ascii "true")
      pure true;
  }

  abbrev pub vss_bytes : RelayInfo d.Flags d.RelayCode → Option Bytes → Option Bytes
  vss_bytes (unknown u) seen = some u.bytes
  vss_bytes _ seen = seen

  -- The loop over the sub-options: whether VSS-Control is there, and the last VSS information.
  unfoldable pub scan :
      List (d.RelayCode × RelayInfo d.Flags d.RelayCode) → Bool × Option Bytes → Bool × Option Bytes
  scan [] seen = seen
  scan ((code, ri) ∷ rest) (has_control, vss_info) = scan rest (
      if d.is_code code d.virtual_subnet_control
      then (true, vss_info)
      else if d.is_code code d.virtual_subnet
      then (has_control, vss_bytes ri vss_info)
      else (has_control, vss_info))

  unfoldable pub check_info : VssConfig → Option d.AgentInfo → Action Unit
  unfolding scan compare_vpn
  check_info vss none = pure tt
  check_info vss (some info) = do
    let found = scan (d.iter info) (false, none)
    if found.0 then notice vss_unsupported else pure tt
    compare_vpn vss found.1

  unfoldable pub vss_check_stage : VssConfig → Stage
  unfolding check_info read_v4
  vss_check_stage vss = record {
    name = "dhcpv4::vss::check";
    process = if not vss.enabled then pure true else do
      msg ← read_v4 "vss check decode: "
      check_info vss (agent_info d msg)
      pure true;
  }

unfoldable pub forward_stage : SocketAddr → Stage
forward_stage dest = record {
  name = "dhcpv4::forward";
  process = (do modify_ctx (set_dst_addr dest); pure true);
}
