-- ===== src/V4/Reply.antt =====
-- The server-to-client pipeline of dhcp/v4/pipeline.rs from end to end.
use dhcp_relay_agent.Common.{
  true, Option, none, some, List, [], ◌∷◌, ◌++◌, ok, err, ◌≡◌, ◌≢◌, refl, ap, subst, ◌∙◌, arith,
  inl, inr, Bool-cases, Option-cases, ◌==◌,
}
use dhcp_relay_agent.Net.{
  Ipv4Addr, ipv4, v4, ipv4_eq, ipv4_beq_iff, unspecified4, SocketAddr, socket,
}
use dhcp_relay_agent.Error.{RelayError}
use dhcp_relay_agent.Config.{VssConfig}
use dhcp_relay_agent.Pipeline.{Flow, Stage, execute_stages, execute}
use dhcp_relay_agent.Pipeline.Execution.{after, execute_stages-cons}
use dhcp_relay_agent.V4.Dhcproto.{Dhcproto, IsDhcproto}
use dhcp_relay_agent.V4.Option82.{SubOption, sub_opts, agent_info, strip}
use dhcp_relay_agent.V4.Option82.Echo.{validate_echo_iff}
use dhcp_relay_agent.V4.Stages.{
  parse_stage, option82_strip_stage, reply_addr_stage, strip_checked, read_v4, vss_check_stage,
}
use dhcp_relay_agent.V4.VssCheck.{vss_check-OnlyLogs}
use dhcp_relay_agent.V4.Build.{build_reply, optional}
use dhcp_relay_agent.V4.Holding.{
  Encodes, Holds, written, written-Holds, parse-ok, modify-ok, modify-err,
}

-- The address of a client: its own one, or broadcast while it has none.
pub data IsReplyAddr (ciaddr : Ipv4Addr) : SocketAddr → Type 0 where
  unicast : ciaddr ≢ unspecified4 → IsReplyAddr ciaddr (socket (v4 ciaddr) 68)
  broadcast : ciaddr ≡ unspecified4 → IsReplyAddr ciaddr (socket (v4 (ipv4 255 255 255 255)) 68)

-- A message, and what is left of it without option 82.
pub data WithoutOpt82 (d : Dhcproto) (m : d.Message) : d.Message → Type 0 where
  had_none : d.get_opt82 m ≡ none → WithoutOpt82 d m m
  removed : (o : d.DhcpOption) → d.get_opt82 m ≡ some o → WithoutOpt82 d m (d.remove_opt82 m)

module _ (d : Dhcproto) (law : IsDhcproto d) (total : Encodes d) where
  reply_stage-ok :
      (m : d.Message) (f : Flow)
      → Holds d law total m f
      → (a : SocketAddr) × (execute_stages (reply_addr_stage d ∷ []) f
          ≡ (ok true, record f { ctx = record f.ctx { dst_addr = some a } }))
        × IsReplyAddr (d.ciaddr m) a
  unfolding execute_stages reply_addr_stage read_v4
  reply_stage-ok m f h = elim (Bool-cases (d.ciaddr m == unspecified4)) [
    | inl e ↦ (
      socket (v4 (ipv4 255 255 255 255)) 68,
      ground (arith, h, e),
      broadcast ((ipv4_beq_iff (d.ciaddr m) unspecified4).0 e),
    )
    | inr e ↦ (
      socket (v4 (d.ciaddr m)) 68,
      ground (arith, h, e),
      unicast (ground (arith, e, ipv4_beq_iff (d.ciaddr m) unspecified4)),
    )
  ]

  strip-ok :
      (expected : List SubOption) (m : d.Message) (info : d.AgentInfo)
      → agent_info d m ≡ some info
      → sub_opts d info ≡ expected
      → strip_checked d (some expected) m ≡ ok (d.remove_opt82 m)
  unfolding strip_checked strip
  strip-ok expected m info e same = ground (arith, e, validate_echo_iff (sub_opts d info) expected)

  strip-unchecked :
      (m : d.Message)
      → (m' : d.Message) × (strip_checked d none m ≡ ok m')
        × WithoutOpt82 d m m'
        × (d.ciaddr m' ≡ d.ciaddr m)
  unfolding strip_checked strip
  strip-unchecked m = elim (Option-cases (d.get_opt82 m)) [
    | inl n ↦ (m, ground (arith, n), had_none n, refl)
    | inr (o, e) ↦ (d.remove_opt82 m, ground (arith, e), removed o e, law.ciaddr-remove_opt82 m)
  ]

  strip-mismatch :
      (expected : List SubOption) (m : d.Message)
      → ((info : d.AgentInfo) → agent_info d m ≡ some info → sub_opts d info ≢ expected)
      → strip_checked d (some expected) m ≡ err RelayError.option82_mismatch
  unfolding strip_checked
  strip-mismatch expected m differs = elim (Option-cases (agent_info d m)) [
    | inl n ↦ ground (arith, n)
    | inr (info, e) ↦
        ground (arith, e, differs info e, validate_echo_iff (sub_opts d info) expected)
  ]

  stage-ok :
      (expected : Option (List SubOption)) (m m' : d.Message) (f : Flow)
      → Holds d law total m f
      → strip_checked d expected m ≡ ok m'
      → (option82_strip_stage d expected).process f ≡ (ok true, written d law total m' f)
  unfolding option82_strip_stage
  stage-ok expected m m' f h e =
      let g = strip_checked d expected in
      ground (arith, modify-ok d law total "dhcpv4::option82::strip" g m m' f h e)

  stage-err :
      (expected : List SubOption) (m : d.Message) (x : RelayError) (f : Flow)
      → Holds d law total m f
      → strip_checked d (some expected) m ≡ err x
      → (option82_strip_stage d (some expected)).process f ≡ (err x, f)
  unfolding option82_strip_stage
  stage-err expected m x f h e =
      let g = strip_checked d (some expected) in
      ground (arith, modify-err d law total "dhcpv4::option82::strip" g m x f h e)

  -- Up to the removal of option 82.
  checked :
      (vss : Option VssConfig) (m : d.Message) (f : Flow) (ss : List Stage)
      → Holds d law total m f
      → (g : Flow) × (execute_stages (optional vss (vss_check_stage d) ++ ss) f
          ≡ execute_stages ss g)
        × (g.ctx ≡ f.ctx)
  checked none m f ss h = (f, refl, refl)
  checked (some vss) m f ss h =
      let x = (vss_check_stage d vss).process f in
      let (e, same) = vss_check-OnlyLogs d law total vss m f h in
      (
        x.1,
        execute_stages-cons (vss_check_stage d vss) ss f
            ∙ ap (λ r. after (vss_check_stage d vss) ss (r, x.1)) e,
        same,
      )

  parsed :
      (vss : Option VssConfig) (m : d.Message) (f : Flow) (ss : List Stage)
      → Holds d law total m f
      → (g : Flow) × (execute_stages (parse_stage d ∷ (optional vss (vss_check_stage d) ++ ss)) f
          ≡ execute_stages ss g)
        × Holds d law total m g
        × (g.ctx.dst_addr ≡ f.ctx.dst_addr)
  parsed vss m f ss h =
      let rest = optional vss (vss_check_stage d) ++ ss in
      let held = written-Holds d law total m f in
      let (g, e, same) = checked vss m (written d law total m f) ss held in
      (
        g,
        execute_stages-cons (parse_stage d) rest f
            ∙ ap (after (parse_stage d) rest) (parse-ok d law total m f h)
            ∙ e,
        ap (λ c. d.decode c.buffer) same ∙ held,
        ap (λ c. c.dst_addr) same,
      )

-- What goes to the client of a reply, behind its check.
record IsStripped (d : Dhcproto) (m m' : d.Message) (g : Flow) : Type 0 where
  decoded : d.decode g.ctx.buffer ≡ ok m'
  dst : SocketAddr
  destination : g.ctx.dst_addr ≡ some dst
  is_addr : IsReplyAddr (d.ciaddr m) dst

reply-IsStripped :
    (d : Dhcproto) (law : IsDhcproto d) (total : Encodes d) (expected : Option (List SubOption))
    (vss : Option VssConfig) (m m' : d.Message) (f : Flow)
    → d.decode f.ctx.buffer ≡ ok m
    → strip_checked d expected m ≡ ok m'
    → d.ciaddr m' ≡ d.ciaddr m
    → (g : Flow) × (execute (build_reply d expected vss true) f ≡ (ok true, g))
      × IsStripped d m m' g
unfolding execute build_reply
reply-IsStripped d law total expected vss m m' f h ok_strip same_addr =
    let s = option82_strip_stage d expected in
    let last = reply_addr_stage d ∷ [] in
    let (g, e, held, _) = parsed d law total vss m f (s ∷ last) h in
    let g' = written d law total m' g in
    let held' = written-Holds d law total m' g in
    let (a, sent, is_addr) = reply_stage-ok d law total m' g' held' in
    (
      record g' { ctx = record g'.ctx { dst_addr = some a } },
      e
          ∙ execute_stages-cons s last g
          ∙ ap (after s last) (stage-ok d law total expected m m' g held ok_strip)
          ∙ sent,
      record {
        decoded = held';
        dst = a;
        destination = refl;
        is_addr = subst (λ c. IsReplyAddr c a) same_addr is_addr;
      },
    )

-- With option 82 enabled, a server's reply that echoes the expected sub-options exactly goes to
-- the client: the pipeline returns true, option 82 is removed from the message, and the
-- destination is the client's own address, or broadcast while it has none, at port 68.
pub reply_echoed :
    (d : Dhcproto) (law : IsDhcproto d) (total : Encodes d) (expected : List SubOption)
    (vss : Option VssConfig) (m : d.Message) (f : Flow) (info : d.AgentInfo)
    → d.decode f.ctx.buffer ≡ ok m
    → agent_info d m ≡ some info
    → sub_opts d info ≡ expected
    → (g : Flow) × (execute (build_reply d (some expected) vss true) f ≡ (ok true, g))
      × (d.decode g.ctx.buffer ≡ ok (d.remove_opt82 m))
      × (a : SocketAddr) × (g.ctx.dst_addr ≡ some a)
      × IsReplyAddr (d.ciaddr m) a
reply_echoed d law total expected vss m f info h has same =
    let (g, ran, is) =
      reply-IsStripped d law total (some expected) vss m (d.remove_opt82 m) f h
        (strip-ok d law total expected m info has same) (law.ciaddr-remove_opt82 m) in
    (g, ran, is.decoded, is.dst, is.destination, is.is_addr)

-- With option 82 enabled: if the pipeline is given sub-options to expect, a reply whose option 82 is
-- missing or holds other ones fails with that error, and no destination is set. If it is given none,
-- the reply goes to the client, without the option 82 if it has one and unchanged if it has none.
pub reply_not_echoed :
    (d : Dhcproto) (law : IsDhcproto d) (total : Encodes d) (expected : List SubOption)
    (vss : Option VssConfig) (m : d.Message) (f : Flow)
    → d.decode f.ctx.buffer ≡ ok m
    → ((info : d.AgentInfo) → agent_info d m ≡ some info → sub_opts d info ≢ expected)
    → ((g : Flow) × (execute (build_reply d (some expected) vss true) f
          ≡ (err RelayError.option82_mismatch, g))
        × (g.ctx.dst_addr ≡ f.ctx.dst_addr))
      × ((g : Flow) × (execute (build_reply d none vss true) f ≡ (ok true, g))
          × (m' : d.Message) × (d.decode g.ctx.buffer ≡ ok m')
          × WithoutOpt82 d m m'
          × (a : SocketAddr) × (g.ctx.dst_addr ≡ some a)
          × IsReplyAddr (d.ciaddr m) a)
unfolding execute build_reply
reply_not_echoed d law total expected vss m f h differs =
    let s = option82_strip_stage d (some expected) in
    let last = reply_addr_stage d ∷ [] in
    let (g, e, held, same) = parsed d law total vss m f (s ∷ last) h in
    let failed = strip-mismatch d law total expected m differs in
    let (m', passes, without, same_addr) = strip-unchecked d law total m in
    let (g', ran', is) = reply-IsStripped d law total none vss m m' f h passes same_addr in
    (
      (
        g,
        e
            ∙ execute_stages-cons s last g
            ∙ ap (after s last)
                (stage-err d law total expected m RelayError.option82_mismatch g held failed),
        same,
      ),
      (g', ran', m', is.decoded, without, is.dst, is.destination, is.is_addr),
    )
