-- ===== src/Tests/Samples.antt =====
-- The values that the tests are about.
use dhcp_relay_agent.Agent.{Node, no_stats}
use dhcp_relay_agent.Agent.Receive.{Task, V4Task, v4_task}
use dhcp_relay_agent.Agent.Setup.{HasAddress, with_port}
use dhcp_relay_agent.Common.{
  Bytes, List, Option, [], arith, ascii, err, false, none, ok, refl, some, true, ℕ, ◌∷◌, ◌≡◌, ◌≢◌,
}
use dhcp_relay_agent.Config.{InterfaceConfig, RelayConfig, VssConfig, relay_default, vss_default}
use dhcp_relay_agent.Net.{Ipv4Addr, SocketAddr, ipv4, socket, unspecified4, v4}
use dhcp_relay_agent.Net.Text.RoundTrip.{show_octet}
use dhcp_relay_agent.Pipeline.{Flow, PipelineContext}
use dhcp_relay_agent.V4.Dhcproto.{Dhcproto, IsDhcproto}
use dhcp_relay_agent.V4.Holding.{Encodes}
use dhcp_relay_agent.V4.Option82.{
  SubOption, agent_info, relay_info_to_sub_opt, sub_option, sub_opts,
}
use dhcp_relay_agent.Tests.CodecV4 as CodecV4

abbrev pub codec4 : Dhcproto
codec4 = CodecV4.codec

pub codec4-IsDhcproto : IsDhcproto codec4
codec4-IsDhcproto = CodecV4.codec-IsDhcproto

pub codec4-Encodes : Encodes codec4
codec4-Encodes = CodecV4.codec-Encodes

abbrev pub relay_ip : Ipv4Addr
relay_ip = ipv4 10 0 0 1

abbrev pub other_relay_ip : Ipv4Addr
other_relay_ip = ipv4 10 9 9 9

abbrev pub client_ip : Ipv4Addr
client_ip = ipv4 10 0 0 7

abbrev pub server : SocketAddr
server = socket (v4 (ipv4 192 168 1 1)) 67

abbrev pub client : SocketAddr
client = socket (v4 unspecified4) 68

abbrev pub info : CodecV4.Info
info = record { circuit = some (ascii "eth0"); remote = none }

abbrev pub message : Ipv4Addr → ℕ → Option CodecV4.Info → CodecV4.Msg
message giaddr kind opt82 = record {
  giaddr = giaddr;
  ciaddr = client_ip;
  kind = kind;
  opt82 = opt82;
}

abbrev pub fresh : CodecV4.Msg
fresh = message unspecified4 1 none

abbrev pub carrying : CodecV4.Msg
carrying = message unspecified4 1 (some info)

abbrev pub spoofed : CodecV4.Msg
spoofed = message relay_ip 1 none

abbrev pub foreign : CodecV4.Msg
foreign = message other_relay_ip 1 (some info)

abbrev pub reply : CodecV4.Msg
reply = message relay_ip 2 (some info)

abbrev pub raw : CodecV4.Msg → Bytes
raw m = elim (CodecV4.codec.encode m) [ ok b ↦ b | err _ ↦ [] ]

abbrev pub context : Bytes → PipelineContext
context b = record {
  raw_in = b;
  buffer = b;
  src_addr = client;
  interface = ascii "eth0";
  dst_addr = none;
  is_reforwarded = false;
  is_trusted_circuit = false;
  metadata = [];
}

abbrev pub flow_of : Bytes → Flow
flow_of b = record { ctx = context b; log = [] }

abbrev pub trusted_flow : Flow
trusted_flow = record {
  ctx = record (context (raw carrying)) { is_trusted_circuit = true };
  log = [];
}

abbrev pub vss : VssConfig
vss = record { enabled = true; vss_type = 0; vss_info = ascii "vpn-abc"; vpn_name = none }

abbrev pub node : Node
node = record { stats = no_stats; sent = []; log = [] }

abbrev pub task4 : V4Task
task4 = record {
  enable_option82 = true;
  vss_enabled = false;
  vss_cfg = vss_default;
  circuit_id = some (ascii "eth0");
  remote_id = none;
  local_addrs = relay_ip ∷ [];
  iface_name = ascii "eth0";
  iface_ip = relay_ip;
  server_addr = server;
}

abbrev pub fresh_bytes : Bytes
fresh_bytes = raw fresh

abbrev pub spoofed_bytes : Bytes
spoofed_bytes = raw spoofed

abbrev pub reply_bytes : Bytes
reply_bytes = raw reply

abbrev pub fresh_flow : Flow
fresh_flow = flow_of (raw fresh)

abbrev pub carrying_flow : Flow
carrying_flow = flow_of (raw carrying)

abbrev pub foreign_flow : Flow
foreign_flow = flow_of (raw foreign)

abbrev pub reply_flow : Flow
reply_flow = flow_of (raw reply)

abbrev pub circuit : Option Bytes
circuit = some (ascii "eth0")

abbrev pub remote : Option Bytes
remote = none

abbrev pub local_addrs : List Ipv4Addr
local_addrs = relay_ip ∷ []

abbrev pub some_vss : Option VssConfig
some_vss = some vss

abbrev pub expected : List SubOption
expected = sub_option 1 (ascii "eth0") ∷ []

abbrev pub unexpected : List SubOption
unexpected = sub_option 1 (ascii "eth1") ∷ []

abbrev pub with_circuit_id : CodecV4.Msg
with_circuit_id = message unspecified4 1 (some info)

pub reply-differs :
    (i : codec4.AgentInfo) → agent_info codec4 reply ≡ some i → sub_opts codec4 i ≢ unexpected
unfolding sub_opts relay_info_to_sub_opt
reply-differs i e f = ground (arith, e, f)

abbrev pub task : Task
task = v4_task codec4 task4

abbrev pub interface4 : InterfaceConfig
interface4 = record {
  name = ascii "eth0";
  ip_addr = ascii "10.0.0.1:67";
  trusted = false;
  enabled = true;
}

pub interface4-HasAddress : HasAddress relay_ip interface4
unfolding show_octet
interface4-HasAddress =
    with_port (ascii "67")
      (record {
        a_byte = omega arith;
        b_byte = omega arith;
        c_byte = omega arith;
        d_byte = omega arith;
      })
      refl

abbrev pub some_config : RelayConfig
some_config = record relay_default { interfaces = interface4 ∷ [] }
