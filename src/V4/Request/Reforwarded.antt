-- ===== src/V4/Request/Reforwarded.antt =====
-- Packets that another relay has forwarded, in the pipeline of dhcp/v4/pipeline.rs.
use dhcp_relay_agent.Common.{
  Bool, true, false, Option, none, some, List, [], ◌∷◌, Bytes, ascii, ok, ◌≡◌, ◌≢◌, refl, ap, ◌∙◌,
  arith, list_eq, nat_eq,
}
use dhcp_relay_agent.Common.Assoc
use dhcp_relay_agent.Net.{Ipv4Addr, unspecified4, SocketAddr}
use dhcp_relay_agent.Config.{VssConfig, validate_vss}
use dhcp_relay_agent.Pipeline.{Flow, execute_stages, execute}
use dhcp_relay_agent.Pipeline.Execution.{after, execute_stages-cons}
use dhcp_relay_agent.V4.Dhcproto.{Dhcproto, IsDhcproto, unknown}
use dhcp_relay_agent.V4.Option82.{agent_info}
use dhcp_relay_agent.V4.Giaddr.{reforwarded}
use dhcp_relay_agent.V4.Giaddr.Decision.{IsForeign}
use dhcp_relay_agent.V4.Stages.{
  validate_stage, option82_insert_stage, vss_insert_stage, giaddr_stage, forward_stage, act_on,
  insert_vss,
}
use dhcp_relay_agent.V4.Build.{build_request, request_tail, request_last}
use dhcp_relay_agent.V4.Holding.{Encodes, written, written-Holds, modify-ok}
use dhcp_relay_agent.V4.Vss.{encode_sub_opts}
use dhcp_relay_agent.V4.Request.{forward-ok}
use dhcp_relay_agent.V4.Request.Rejected.{decided}

-- The mark that the validator sets.
abbrev marked : Flow → Flow
marked f = record f { ctx = record f.ctx { is_reforwarded = true } }

abbrev marked_vss : Flow → Flow
marked_vss f = record f {
  ctx = record f.ctx {
    metadata = Assoc.insert (ascii "vss_inserted") (ascii "true") f.ctx.metadata;
  };
}

abbrev sent_to : SocketAddr → Flow → Flow
sent_to server f = record f { ctx = record f.ctx { dst_addr = some server } }

module _ (d : Dhcproto) (f : Flow) (r : f.ctx.is_reforwarded ≡ true) where
  insert-skips :
      (circuit remote : Option Bytes)
      → (option82_insert_stage d circuit remote).process f ≡ (ok true, f)
  unfolding option82_insert_stage
  insert-skips circuit remote = ground (arith, r)

  giaddr-skips : (ip : Ipv4Addr) → (giaddr_stage d ip).process f ≡ (ok true, f)
  unfolding giaddr_stage
  giaddr-skips ip = ground (arith, r)

  -- Behind the insertion of option 82.
  last-skips :
      (ip : Ipv4Addr) (server : SocketAddr)
      → execute_stages (giaddr_stage d ip ∷ forward_stage server ∷ []) f
        ≡ (ok true, sent_to server f)
  last-skips ip server =
      execute_stages-cons (giaddr_stage d ip) (forward_stage server ∷ []) f
      ∙ ap (after (giaddr_stage d ip) (forward_stage server ∷ [])) (giaddr-skips ip)
      ∙ forward-ok server f

  tail-skips :
      (circuit remote : Option Bytes) (ip : Ipv4Addr) (server : SocketAddr) (vss : Option VssConfig)
      (enable_option82 : Bool)
      → execute_stages (request_tail d circuit remote ip server vss enable_option82) f
        ≡ execute_stages (request_last d ip server vss) f
  tail-skips circuit remote ip server vss false = refl
  tail-skips circuit remote ip server vss true =
      execute_stages-cons (option82_insert_stage d circuit remote) (request_last d ip server vss) f
      ∙ ap (after (option82_insert_stage d circuit remote) (request_last d ip server vss))
          (insert-skips circuit remote)

-- A message with a relay address that is not local is passed on unchanged: the pipeline without VSS
-- returns true, the message in the buffer is the one received, and it is sent to the server.
pub request_reforwarded :
    (d : Dhcproto) (law : IsDhcproto d) (total : Encodes d) (addrs : List Ipv4Addr)
    (circuit remote : Option Bytes) (ip : Ipv4Addr) (server : SocketAddr) (enable_option82 : Bool)
    (m : d.Message) (f : Flow)
    → d.decode f.ctx.buffer ≡ ok m
    → d.giaddr m ≢ unspecified4
    → IsForeign (d.giaddr m) addrs
    → (g : Flow) × (execute (build_request d addrs circuit remote ip server none enable_option82) f
        ≡ (ok true, g))
      × (d.decode g.ctx.buffer ≡ ok m)
      × (g.ctx.dst_addr ≡ some server)
unfolding execute build_request act_on validate_stage
request_reforwarded d law total addrs circuit remote ip server enable_option82 m f h nz l =
    let f' = marked (written d law total m f) in
    (
      sent_to server f',
      decided d law total m f h addrs reforwarded
            (request_tail d circuit remote ip server none enable_option82) (nz, l)
          ∙ tail-skips d f' refl circuit remote ip server none enable_option82
          ∙ last-skips d f' refl ip server,
      written-Holds d law total m f,
      refl,
    )

-- The information that VSS insertion adds to option 82.
abbrev pub with_vss : (d : Dhcproto) → VssConfig → d.AgentInfo → d.AgentInfo
with_vss d vss info =
    d.insert_info (unknown (record { code = d.virtual_subnet_control; bytes = [] })) (
      d.insert_info
        (unknown (record { code = d.virtual_subnet; bytes = vss.vss_type ∷ vss.vss_info })) info)

vss-ok :
    (d : Dhcproto) (law : IsDhcproto d) (total : Encodes d) (vss : VssConfig) (m : d.Message)
    (f : Flow) (info : d.AgentInfo)
    → d.decode f.ctx.buffer ≡ ok m
    → vss.enabled ≡ true
    → validate_vss vss ≡ ok tt
    → agent_info d m ≡ some info
    → (vss_insert_stage d vss).process f ≡ (
      ok true,
      record f {
        ctx = record f.ctx {
          buffer = (total (d.insert_opt (d.agent_option (with_vss d vss info)) m)).0;
          metadata = Assoc.insert (ascii "vss_inserted") (ascii "true") f.ctx.metadata;
        };
      },
    )
unfolding vss_insert_stage insert_vss encode_sub_opts
vss-ok d law total vss m f info h en valid has =
    let payload = vss.vss_type ∷ vss.vss_info in
    let m' = d.insert_opt (d.agent_option (with_vss d vss info)) m in
    ground (
      arith,
      h,
      en,
      valid,
      has,
      modify-ok d law total "dhcpv4::vss::insert" (insert_vss d payload) m m' f h,
    )

-- A message with a relay address that is not local and with option 82 is changed, where VSS is
-- enabled and valid: the pipeline returns true, the VSS sub-options have been put into its option
-- 82, and it is sent to the server.
pub request_reforwarded_vss :
    (d : Dhcproto) (law : IsDhcproto d) (total : Encodes d) (addrs : List Ipv4Addr)
    (circuit remote : Option Bytes) (ip : Ipv4Addr) (server : SocketAddr) (vss : VssConfig)
    (enable_option82 : Bool) (m : d.Message) (f : Flow) (info : d.AgentInfo)
    → d.decode f.ctx.buffer ≡ ok m
    → d.giaddr m ≢ unspecified4
    → IsForeign (d.giaddr m) addrs
    → vss.enabled ≡ true
    → validate_vss vss ≡ ok tt
    → agent_info d m ≡ some info
    → (g : Flow) × (execute
          (build_request d addrs circuit remote ip server (some vss) enable_option82)
          f
        ≡ (ok true, g))
      × (d.decode g.ctx.buffer ≡ ok (d.insert_opt (d.agent_option (with_vss d vss info)) m))
      × (g.ctx.dst_addr ≡ some server)
unfolding execute build_request act_on validate_stage
request_reforwarded_vss d law total addrs circuit remote ip server vss enable_option82 m f info h nz
      l en valid has =
    let f1 = marked (written d law total m f) in
    let m' = d.insert_opt (d.agent_option (with_vss d vss info)) m in
    let f2 = marked_vss (written d law total m' f1) in
    let last = giaddr_stage d ip ∷ forward_stage server ∷ [] in
    let s = vss_insert_stage d vss in
    (
      sent_to server f2,
      decided d law total m f h addrs reforwarded
            (request_tail d circuit remote ip server (some vss) enable_option82) (nz, l)
          ∙ tail-skips d f1 refl circuit remote ip server (some vss) enable_option82
          ∙ execute_stages-cons s last f1
          ∙ ap (after s last)
              (vss-ok d law total vss m f1 info (written-Holds d law total m f) en valid has)
          ∙ last-skips d f2 refl ip server,
      written-Holds d law total m' f1,
      refl,
    )
