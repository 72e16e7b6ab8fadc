-- ===== src/Tests/SamplesV6.antt =====
-- The values that the tests of the DHCPv6 relay are about.
use dhcp_relay_agent.Agent.Receive.{V6Task}
use dhcp_relay_agent.Common.{Bytes, List, [], ascii, false, ok, replicate, true, ℕ, ◌++◌, ◌∷◌}
use dhcp_relay_agent.Config.{vss_default}
use dhcp_relay_agent.Net.{Ipv6Addr, SocketAddr, ipv6, socket, v6}
use dhcp_relay_agent.Pipeline.{Flow}
use dhcp_relay_agent.Tests.Samples.{flow_of}
use dhcp_relay_agent.V6.Dhcproto.{DhcpOption, DhcprotoV6, IsDhcprotoV6, unknown}
use dhcp_relay_agent.V6.Extending.{EncodesV6}
use dhcp_relay_agent.V6.RelayFwd.Layers.{Layer}
use dhcp_relay_agent.Tests.CodecV6 as CodecV6

abbrev pub codec6 : DhcprotoV6
codec6 = CodecV6.codec

pub codec6-IsDhcprotoV6 : IsDhcprotoV6 codec6
codec6-IsDhcprotoV6 = CodecV6.codec-IsDhcprotoV6

pub codec6-Encodes : EncodesV6 codec6
codec6-Encodes = CodecV6.codec-Encodes

abbrev pub link : Ipv6Addr
link = ipv6 0xfe80 0 0 0 0 0 0 1

abbrev pub server6 : SocketAddr
server6 = socket (v6 (ipv6 0x2001 0xdb8 0 0 0 0 0 100)) 547

abbrev pub peer : SocketAddr
peer = socket (v6 (ipv6 0xfe80 0 0 0 0 0 0 9)) 546

abbrev pub task6 : V6Task
task6 = record {
  enable_interface_id = true;
  enable_remote_id = true;
  vss_enabled = false;
  vss_cfg = vss_default;
  remote_id = ascii "agent-1";
  iface_name = ascii "eth0";
  server_addr = server6;
  local_addr = ok server6;
}

abbrev pub solicit : CodecV6.Msg
solicit = record { kind = 1; opts = unknown (record { code = 8; data_bytes = 0 ∷ 0 ∷ [] }) ∷ [] }

abbrev pub solicit_bytes : Bytes
solicit_bytes = 1 ∷ 8 ∷ 2 ∷ 0 ∷ 0 ∷ []

abbrev pub iface : Bytes
iface = ascii "eth0"

abbrev pub agent : Bytes
agent = ascii "agent-1"

-- A Relay-reply round the client's message, and the message that the codec reads from it.
abbrev pub outer_bytes : Bytes
outer_bytes = 13 ∷ (replicate 33 0 ++ (0 ∷ 9 ∷ 0 ∷ 5 ∷ solicit_bytes))

abbrev pub opt : ℕ → Bytes → DhcpOption ℕ Unit
opt code bytes = unknown (record { code = code; data_bytes = bytes })

abbrev pub outer : CodecV6.Msg
outer = record {
  kind = 13;
  opts = replicate 17 (opt 0 []) ++ (opt 9 [] ∷ opt 5 (8 ∷ []) ∷ opt 2 [] ∷ []);
}

abbrev pub outer_flow : Flow
outer_flow = flow_of outer_bytes

abbrev pub layer : Layer
layer = record { header = replicate 33 0; options = [] }

abbrev pub layers : List Layer
layers = layer ∷ []

abbrev pub before_vss : List (DhcpOption codec6.OptionCode codec6.Rest)
before_vss = opt 8 (0 ∷ 0 ∷ []) ∷ []
