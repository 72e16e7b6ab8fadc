-- ===== src/Agent/Counted.antt =====
-- What is counted as forwarded in lib.rs, against what is sent.
use dhcp_relay_agent.Common.{
  ◌%◌, ◌^◌, Bool, true, false, Option, some, List, [], ◌∷◌, Bytes, ok, err, ◌≡◌, refl, ap, ◌∙◌,
  arith, length, length-append, inl, inr, Result-cases,
}
use dhcp_relay_agent.Net.{Ipv4Addr, SocketAddr}
use dhcp_relay_agent.Error.{RelayResult}
use dhcp_relay_agent.Config.{VssConfig}
use dhcp_relay_agent.Pipeline.{Flow, Pipeline, execute_stages, execute}
use dhcp_relay_agent.V4.Dhcproto.{Dhcproto}
use dhcp_relay_agent.V4.Option82.{SubOption}
use dhcp_relay_agent.V4.Build
use dhcp_relay_agent.V6.Dhcproto.{DhcprotoV6}
use dhcp_relay_agent.V6.Stages as Stages6
use dhcp_relay_agent.Agent.{
  RelayStats, Node, send, start, link_addr, finish, increment, count_received, count_forwarded,
  count_stripped, count_spoof, handle_v4_client, handle_v4_server, handle_v6_client,
  handle_v6_server,
}
use dhcp_relay_agent.Agent.Delivers.{
  Delivers, request4-Delivers, reply4-Delivers, request6-Delivers, reply6-Delivers,
}
use dhcp_relay_agent.Agent.Receive.{
  Task, v4_task, v6_task, receive, V4Task, V6Task, receive_v4, receive_v6, Event, changed, received,
  receive_failed, run_task, vss_if, expected_sub_opts,
}

-- As many packets are counted as forwarded as were sent, up to the counter's width.
abbrev pub IsCounted : Node → Type 0
IsCounted node = node.stats.packets_forwarded ≡ length node.sent % 2 ^ 64

finish-IsCounted :
    (on_true on_err : RelayStats → RelayStats) (r : RelayResult Bool) (f : Flow) (node : Node)
    → ((s : RelayStats) → (on_true s).packets_forwarded ≡ increment s.packets_forwarded)
    → ((s : RelayStats) → (on_err s).packets_forwarded ≡ s.packets_forwarded)
    → (r ≡ ok true → (a : SocketAddr) × (f.ctx.dst_addr ≡ some a))
    → IsCounted node
    → IsCounted (finish on_true on_err (r, f) node)
unfolding finish send
finish-IsCounted on_true on_err (ok true) f node t n dst h =
    let (a, e) = dst refl in
    ground (arith, t node.stats, e, h, length-append node.sent ((f.ctx.buffer, a) ∷ []))
finish-IsCounted on_true on_err (ok false) f node t n dst h = h
finish-IsCounted on_true on_err (err x) f node t n dst h = n node.stats ∙ h

-- A pipeline that delivers.
execute-IsCounted :
    (on_true on_err : RelayStats → RelayStats) (p : Pipeline) (f : Flow) (node : Node)
    → ((s : RelayStats) → (on_true s).packets_forwarded ≡ increment s.packets_forwarded)
    → ((s : RelayStats) → (on_err s).packets_forwarded ≡ s.packets_forwarded)
    → Delivers p.stages
    → IsCounted node
    → IsCounted (finish on_true on_err (execute p f) node)
unfolding execute
execute-IsCounted on_true on_err p f node t n delivers h =
    let x = execute_stages p.stages f in
    finish-IsCounted on_true on_err x.0 x.1 node t n
      (λ e. delivers.sets f x.1 (ap (λ r. (r, x.1)) e)) h

module _ (d : Dhcproto) where
  client4-IsCounted :
      (data_bytes : Bytes) (src : SocketAddr) (name : Bytes) (ip : Ipv4Addr) (addrs : List Ipv4Addr)
      (circuit remote : Option Bytes) (server : SocketAddr) (vss : Option VssConfig) (flag : Bool)
      (node : Node)
      → IsCounted node
      → IsCounted
          (handle_v4_client d data_bytes src name ip addrs circuit remote server vss flag node)
  unfolding handle_v4_client
  client4-IsCounted data_bytes src name ip addrs circuit remote server vss flag node h =
      execute-IsCounted count_forwarded count_spoof
        (Build.build_request d addrs circuit remote ip server vss flag)
        (start data_bytes src name node) node (λ s. refl) (λ s. refl)
        (request4-Delivers d addrs circuit remote ip server vss flag) h

  server4-IsCounted :
      (data_bytes : Bytes) (src : SocketAddr) (name : Bytes) (expected : Option (List SubOption))
      (vss : Option VssConfig) (flag : Bool) (node : Node)
      → IsCounted node
      → IsCounted (handle_v4_server d data_bytes src name expected vss flag node)
  unfolding handle_v4_server
  server4-IsCounted data_bytes src name expected vss flag node h =
      execute-IsCounted (λ s. count_stripped (count_forwarded s)) (λ s. s)
        (Build.build_reply d expected vss flag) (start data_bytes src name node) node (λ s. refl)
        (λ s. refl) (reply4-Delivers d expected vss flag) h

  receive_v4-IsCounted :
      (t : V4Task) (data_bytes : Bytes) (src : SocketAddr) (node : Node)
      → IsCounted node
      → IsCounted (receive_v4 d t data_bytes src node)
  unfolding receive_v4
  receive_v4-IsCounted t data_bytes src node h =
      let counted = record node { stats = count_received node.stats } in
      let vss = vss_if t.vss_enabled t.vss_cfg in
      elim (Result-cases (d.decode data_bytes)) [
        | inl (m, e) ↦ ground (
          arith,
          e,
          client4-IsCounted data_bytes src t.iface_name t.iface_ip t.local_addrs t.circuit_id
              t.remote_id t.server_addr vss t.enable_option82 counted h,
          server4-IsCounted data_bytes src t.iface_name (expected_sub_opts d m) vss
              t.enable_option82 counted h,
        )
        | inr (x, e) ↦ ground (arith, e, h)
      ]

module _ (d : DhcprotoV6) where
  client6-IsCounted :
      (local : RelayResult SocketAddr) (data_bytes : Bytes) (src : SocketAddr) (name id : Bytes)
      (server : SocketAddr) (vss : Option VssConfig) (flag1 flag2 : Bool) (node : Node)
      → IsCounted node
      → IsCounted (handle_v6_client d local data_bytes src name id server vss flag1 flag2 node)
  unfolding handle_v6_client
  client6-IsCounted local data_bytes src name id server vss flag1 flag2 node h =
      execute-IsCounted count_forwarded (λ s. s)
        (Stages6.build_request d name id (link_addr local) src server vss flag1 flag2)
        (start data_bytes src name node) node (λ s. refl) (λ s. refl)
        (request6-Delivers d name id (link_addr local) src server vss flag1 flag2) h

  server6-IsCounted :
      (data_bytes : Bytes) (src : SocketAddr) (name : Bytes) (vss : Option VssConfig) (node : Node)
      → IsCounted node
      → IsCounted (handle_v6_server d data_bytes src name vss node)
  unfolding handle_v6_server
  server6-IsCounted data_bytes src name vss node h =
      execute-IsCounted count_forwarded (λ s. s) (Stages6.build_reply d src vss)
        (start data_bytes src name node) node (λ s. refl) (λ s. refl) (reply6-Delivers d src vss) h

  receive_v6-IsCounted :
      (t : V6Task) (data_bytes : Bytes) (src : SocketAddr) (node : Node)
      → IsCounted node
      → IsCounted (receive_v6 d t data_bytes src node)
  unfolding receive_v6
  receive_v6-IsCounted t data_bytes src node h =
      let counted = record node { stats = count_received node.stats } in
      let vss = vss_if t.vss_enabled t.vss_cfg in
      ground (
        arith,
        h,
        server6-IsCounted data_bytes src t.iface_name vss counted h,
        client6-IsCounted t.local_addr data_bytes src t.iface_name t.remote_id t.server_addr vss
            t.enable_interface_id t.enable_remote_id counted h,
      )

pub receive-IsCounted :
    (t : Task) (data_bytes : Bytes) (src : SocketAddr) (node : Node)
    → IsCounted node
    → IsCounted (receive t data_bytes src node)
receive-IsCounted (v4_task d t) data_bytes src node h =
    receive_v4-IsCounted d t data_bytes src node h
receive-IsCounted (v6_task d t) data_bytes src node h =
    receive_v6-IsCounted d t data_bytes src node h

-- Whatever a task sees, the number of packets counted as forwarded stays the number of those that
-- were handed to the transport, up to the width of the counter.
pub run_task-IsCounted :
    (t : Task) (es : List Event) (node : Node)
    → IsCounted node
    → IsCounted (run_task (receive t) es node)
unfolding run_task
run_task-IsCounted t [] node h = h
run_task-IsCounted t (changed true ∷ es) node h = h
run_task-IsCounted t (changed false ∷ es) node h = run_task-IsCounted t es node h
run_task-IsCounted t (received data_bytes src ∷ es) node h =
    run_task-IsCounted t es (receive t data_bytes src node)
      (receive-IsCounted t data_bytes src node h)
run_task-IsCounted t (receive_failed ∷ es) node h = run_task-IsCounted t es node h
