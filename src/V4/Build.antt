-- ===== src/V4/Build.antt =====
-- `build_request` and `build_reply` of dhcp/v4/pipeline.rs.
use dhcp_relay_agent.Common.{Bool, Option, none, some, List, [], ◌∷◌, ◌++◌, Bytes, if◌then◌else◌}
use dhcp_relay_agent.Net.{Ipv4Addr, SocketAddr}
use dhcp_relay_agent.Config.{VssConfig}
use dhcp_relay_agent.Pipeline.{Stage, Pipeline, with_stages}
use dhcp_relay_agent.V4.Dhcproto.{Dhcproto}
use dhcp_relay_agent.V4.Option82.{SubOption}
use dhcp_relay_agent.V4.Stages.{
  parse_stage, validate_stage, option82_insert_stage, vss_insert_stage, giaddr_stage, forward_stage,
  vss_check_stage, option82_strip_stage, reply_addr_stage,
}

-- The stage of an optional part.
abbrev pub optional {ℓ} : {A : Type ℓ} → Option A → (A → Stage) → List Stage
optional none stage = []
optional (some a) stage = stage a ∷ []

module _ (d : Dhcproto) where
  -- The stages that are pushed behind the insertion of option 82, and behind the first two.
  abbrev pub request_last : Ipv4Addr → SocketAddr → Option VssConfig → List Stage
  request_last iface_ip server_addr vss_config =
      optional vss_config (vss_insert_stage d)
      ++ (giaddr_stage d iface_ip ∷ forward_stage server_addr ∷ [])

  abbrev pub request_tail :
      Option Bytes → Option Bytes → Ipv4Addr → SocketAddr → Option VssConfig → Bool → List Stage
  request_tail circuit_id remote_id iface_ip server_addr vss_config enable_option82 =
      (if enable_option82 then option82_insert_stage d circuit_id remote_id ∷ [] else [])
      ++ request_last iface_ip server_addr vss_config

  unfoldable pub build_request :
      List Ipv4Addr
      → Option Bytes
      → Option Bytes
      → Ipv4Addr
      → SocketAddr
      → Option VssConfig
      → Bool
      → Pipeline
  build_request local_addrs circuit_id remote_id iface_ip server_addr vss_config enable_option82 =
      with_stages (
        parse_stage d
        ∷ validate_stage d local_addrs
        ∷ request_tail circuit_id remote_id iface_ip server_addr vss_config enable_option82)

  unfoldable pub build_reply : Option (List SubOption) → Option VssConfig → Bool → Pipeline
  build_reply expected_sub_opts vss_config enable_option82 = with_stages (
      parse_stage d
      ∷ (optional vss_config (vss_check_stage d)
          ++ ((if enable_option82 then option82_strip_stage d expected_sub_opts ∷ [] else [])
              ++ (reply_addr_stage d ∷ []))))
