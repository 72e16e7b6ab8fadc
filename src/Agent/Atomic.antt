-- ===== src/Agent/Atomic.antt =====
-- What a packet does to the state that the tasks of lib.rs share, access by access: the additions to
-- the counters, which are atomic, and the sending of packets, in the order of the code.
pub mod Unlogged
pub mod Logless
pub mod Performing
pub mod Orders
pub mod Interleaving
pub mod Snapshot
pub mod Moments
use dhcp_relay_agent.Common.{
  ℕ, Bool, true, false, Option, none, some, List, [], ◌∷◌, ◌++◌, Bytes, Result, ok, err, ◌==◌,
  nat_eq, if◌then◌else◌,
}
use dhcp_relay_agent.Net.{SocketAddr}
use dhcp_relay_agent.Error.{RelayResult}
use dhcp_relay_agent.Pipeline.{PipelineContext, Notice, Flow, new_context, execute}
use dhcp_relay_agent.V4.Dhcproto.{Dhcproto}
use dhcp_relay_agent.V4.Build
use dhcp_relay_agent.V6.Dhcproto.{DhcprotoV6}
use dhcp_relay_agent.V6.RelayFwd.{relay_repl}
use dhcp_relay_agent.V6.Stages as Stages6
use dhcp_relay_agent.Agent.{
  RelayStats, count_received, count_forwarded, count_spoof, count_stripped, link_addr,
}
use dhcp_relay_agent.Agent.Receive.{
  Task, v4_task, v6_task, V4Task, V6Task, vss_if, is_client4, is_client6, expected_sub_opts,
  first_byte,
}

pub data Effect : Type 0 where
  counts_received counts_forwarded counts_spoof counts_stripped : Effect
  sends : Bytes → SocketAddr → Effect

-- `fetch_add(1, Ordering::Relaxed)` on one of the counters
unfoldable pub on_stats : Effect → RelayStats → RelayStats
on_stats counts_received s = count_received s
on_stats counts_forwarded s = count_forwarded s
on_stats counts_spoof s = count_spoof s
on_stats counts_stripped s = count_stripped s
on_stats (sends buf dst) s = s

unfoldable pub stats_after : List Effect → RelayStats → RelayStats
stats_after [] s = s
stats_after (e ∷ es) s = stats_after es (on_stats e s)

abbrev pub packets : Effect → List (Bytes × SocketAddr)
packets (sends buf dst) = (buf, dst) ∷ []
packets _ = []

-- The packets that are sent, in their order.
unfoldable pub sent_by : List Effect → List (Bytes × SocketAddr)
sent_by [] = []
sent_by (e ∷ es) = packets e ++ sent_by es

-- `if let Some(dst) = ctx.dst_addr { transport.send_to(&ctx.buffer, dst) }`
abbrev pub sending : PipelineContext → List Effect
sending ctx = elim ctx.dst_addr [ none ↦ [] | some dst ↦ sends ctx.buffer dst ∷ [] ]

-- The `match` on the pipeline's result in `handle_v4_client`, `handle_v4_server` and the two
-- DHCPv6 handlers.
unfoldable pub after_v4_client : RelayResult Bool × Flow → List Effect
after_v4_client (ok true, f) = counts_forwarded ∷ sending f.ctx
after_v4_client (ok false, f) = []
after_v4_client (err _, f) = counts_spoof ∷ []

unfoldable pub after_v4_server : RelayResult Bool × Flow → List Effect
after_v4_server (ok true, f) = counts_forwarded ∷ counts_stripped ∷ sending f.ctx
after_v4_server (ok false, f) = []
after_v4_server (err _, f) = []

unfoldable pub after_v6 : RelayResult Bool × Flow → List Effect
after_v6 (ok true, f) = counts_forwarded ∷ sending f.ctx
after_v6 (ok false, f) = []
after_v6 (err _, f) = []

-- The packet's context, and the log before it.
abbrev pub begin : Bytes → SocketAddr → Bytes → List Notice → Flow
begin data_bytes src iface_name log = record {
  ctx = new_context data_bytes src iface_name;
  log = log;
}

unfoldable pub effects_v4 : Dhcproto → V4Task → Bytes → SocketAddr → List Notice → List Effect
effects_v4 d t data_bytes src log =
    let vss = vss_if t.vss_enabled t.vss_cfg in
    let f = begin data_bytes src t.iface_name log in
    counts_received ∷ elim (d.decode data_bytes) [
      | err _ ↦ []
      | ok msg ↦
          if is_client4 (d.msg_type msg)
          then after_v4_client (
              execute
                (Build.build_request d t.local_addrs t.circuit_id t.remote_id t.iface_ip
                  t.server_addr vss t.enable_option82)
                f)
          else after_v4_server
              (execute (Build.build_reply d (expected_sub_opts d msg) vss t.enable_option82) f)
    ]

unfoldable pub effects_v6 : DhcprotoV6 → V6Task → Bytes → SocketAddr → List Notice → List Effect
effects_v6 d t data_bytes src log =
    let vss = vss_if t.vss_enabled t.vss_cfg in
    let f = begin data_bytes src t.iface_name log in
    counts_received
    ∷ (if first_byte data_bytes == relay_repl
        then after_v6 (execute (Stages6.build_reply d src vss) f)
        else elim (d.decode data_bytes) [
          | err _ ↦ []
          | ok msg ↦
              if is_client6 (d.msg_type msg)
              then after_v6 (
                  execute
                    (Stages6.build_request d t.iface_name t.remote_id (link_addr t.local_addr) src
                      t.server_addr vss t.enable_interface_id t.enable_remote_id)
                    f)
              else []
        ])

abbrev pub effects : Task → Bytes → SocketAddr → List Notice → List Effect
effects (v4_task d t) = effects_v4 d t
effects (v6_task d t) = effects_v6 d t
