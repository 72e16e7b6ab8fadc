-- ===== src/Agent.antt =====
-- lib.rs: the statistics, the handlers of the packets of clients and servers, and the agent. What
-- the transport has been given to send is kept in a list; its result is ignored by the code.
pub mod Receive
pub mod Setup
pub mod Delivers
pub mod Counted
pub mod Uncounted
pub mod Atomic
pub mod Wire
pub mod Replies
pub mod Life
pub mod Spawn
pub mod Watch
pub mod Running
use dhcp_relay_agent.Common.{
  ℕ, ◌+◌, ◌%◌, ◌^◌, Bool, true, false, Option, none, some, List, [], ◌∷◌, ◌++◌, Bytes, Result, ok,
  err,
}
use dhcp_relay_agent.Net.{Ipv4Addr, Ipv6Addr, IpAddr, v4, v6, SocketAddr, unspecified6}
use dhcp_relay_agent.Error.{RelayError, RelayResult}
use dhcp_relay_agent.Config.{VssConfig}
use dhcp_relay_agent.Pipeline.{PipelineContext, new_context, Notice, Flow, Pipeline, execute}
use dhcp_relay_agent.Transport.{send_to}
use dhcp_relay_agent.V4.Dhcproto.{Dhcproto}
use dhcp_relay_agent.V4.Option82.{SubOption}
use dhcp_relay_agent.V4.Build
use dhcp_relay_agent.V6.Dhcproto.{DhcprotoV6}
use dhcp_relay_agent.V6.Stages

pub record RelayStats : Type 0 where
  pub packets_received : ℕ
  pub packets_forwarded : ℕ
  pub packets_dropped_parse_error : ℕ
  pub packets_dropped_spoof : ℕ
  pub option82_inserted : ℕ
  pub option82_stripped : ℕ
  pub vss_not_supported : ℕ
  pub smf_duplicates_detected : ℕ
  pub smf_forwarded : ℕ

-- `AtomicU64::fetch_add(1, …)`, which wraps around.
abbrev pub increment : ℕ → ℕ
increment n = (n + 1) % 2 ^ 64

abbrev pub no_stats : RelayStats
no_stats = record {
  packets_received = 0;
  packets_forwarded = 0;
  packets_dropped_parse_error = 0;
  packets_dropped_spoof = 0;
  option82_inserted = 0;
  option82_stripped = 0;
  vss_not_supported = 0;
  smf_duplicates_detected = 0;
  smf_forwarded = 0;
}

-- The statistics, what was sent, and what was logged.
pub record Node : Type 0 where
  pub stats : RelayStats
  pub sent : List (Bytes × SocketAddr)
  pub log : List Notice

abbrev pub count_received : RelayStats → RelayStats
count_received s = record s { packets_received = increment s.packets_received }

abbrev pub count_forwarded : RelayStats → RelayStats
count_forwarded s = record s { packets_forwarded = increment s.packets_forwarded }

abbrev pub count_spoof : RelayStats → RelayStats
count_spoof s = record s { packets_dropped_spoof = increment s.packets_dropped_spoof }

abbrev pub count_stripped : RelayStats → RelayStats
count_stripped s = record s { option82_stripped = increment s.option82_stripped }

-- `if let Some(dst) = ctx.dst_addr { transport.send_to(&ctx.buffer, dst) }`
unfoldable pub send : PipelineContext → List (Bytes × SocketAddr) → List (Bytes × SocketAddr)
send ctx sent = elim ctx.dst_addr [ none ↦ sent | some dst ↦ send_to ctx.buffer dst sent ]

-- The `match` on the pipeline's result, which differs in the counters.
unfoldable pub finish :
    (RelayStats → RelayStats) → (RelayStats → RelayStats) → RelayResult Bool × Flow → Node → Node
unfolding send
finish on_true on_err (ok true, f) node = record {
  stats = on_true node.stats;
  sent = send f.ctx node.sent;
  log = f.log;
}
finish on_true on_err (ok false, f) node = record node { log = f.log }
finish on_true on_err (err _, f) node = record {
  stats = on_err node.stats;
  sent = node.sent;
  log = f.log;
}

abbrev pub start : Bytes → SocketAddr → Bytes → Node → Flow
start data_bytes src iface_name node = record {
  ctx = new_context data_bytes src iface_name;
  log = node.log;
}

module _ (d : Dhcproto) where
  unfoldable pub handle_v4_client :
      Bytes
      → SocketAddr
      → Bytes
      → Ipv4Addr
      → List Ipv4Addr
      → Option Bytes
      → Option Bytes
      → SocketAddr
      → Option VssConfig
      → Bool
      → Node
      → Node
  unfolding finish
  handle_v4_client data_bytes src iface_name iface_ip local_addrs circuit_id remote_id server_addr
        vss_cfg enable_option82 node =
      let pipeline =
        Build.build_request d local_addrs circuit_id remote_id iface_ip server_addr vss_cfg
          enable_option82 in
      finish count_forwarded count_spoof (execute pipeline (start data_bytes src iface_name node))
        node

  unfoldable pub handle_v4_server :
      Bytes → SocketAddr → Bytes → Option (List SubOption) → Option VssConfig → Bool → Node → Node
  unfolding finish
  handle_v4_server data_bytes src iface_name expected_sub_opts vss_cfg enable_option82 node =
      let pipeline = Build.build_reply d expected_sub_opts vss_cfg enable_option82 in
      finish (λ s. count_stripped (count_forwarded s)) (λ s. s)
        (execute pipeline (start data_bytes src iface_name node)) node

-- The address that the transport is bound to, if it is an IPv6 address.
unfoldable pub link_addr : RelayResult SocketAddr → Ipv6Addr
link_addr (ok a) = elim a.ip [ v6 ip ↦ ip | v4 _ ↦ unspecified6 ]
link_addr (err _) = unspecified6

module _ (d : DhcprotoV6) where
  unfoldable pub handle_v6_client :
      RelayResult SocketAddr
      → Bytes
      → SocketAddr
      → Bytes
      → Bytes
      → SocketAddr
      → Option VssConfig
      → Bool
      → Bool
      → Node
      → Node
  unfolding finish link_addr
  handle_v6_client local_addr data_bytes src iface_name remote_id server_addr vss_cfg
        enable_interface_id enable_remote_id node =
      let pipeline =
        Stages.build_request d iface_name remote_id (link_addr local_addr) src server_addr vss_cfg
          enable_interface_id enable_remote_id in
      finish count_forwarded (λ s. s) (execute pipeline (start data_bytes src iface_name node)) node

  unfoldable pub handle_v6_server : Bytes → SocketAddr → Bytes → Option VssConfig → Node → Node
  unfolding finish
  handle_v6_server data_bytes src iface_name vss_cfg node =
      finish count_forwarded (λ s. s)
        (execute (Stages.build_reply d src vss_cfg) (start data_bytes src iface_name node)) node
