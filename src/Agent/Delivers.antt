-- ===== src/Agent/Delivers.antt =====
-- Pipelines whose packets all get a destination (dhcp/v4/pipeline.rs, dhcp/v6/pipeline.rs).
use dhcp_relay_agent.Common.{
  Bool, true, false, Option, some, List, [], ◌∷◌, ◌++◌, Bytes, ok, err, ◌≡◌, sym, ap, ◌∙◌, arith,
  inl, inr, Result-cases,
}
use dhcp_relay_agent.Net.{Ipv4Addr, Ipv6Addr, SocketAddr}
use dhcp_relay_agent.Error.{RelayResult}
use dhcp_relay_agent.Config.{VssConfig}
use dhcp_relay_agent.Pipeline.{Flow, Stage, execute_stages}
use dhcp_relay_agent.Pipeline.Execution.{after, execute_stages-cons}
use dhcp_relay_agent.V4.Dhcproto.{Dhcproto}
use dhcp_relay_agent.V4.Option82.{SubOption}
use dhcp_relay_agent.V4.Build
use dhcp_relay_agent.V4.Stages
use dhcp_relay_agent.V6.Dhcproto.{DhcprotoV6}
use dhcp_relay_agent.V6.Stages as Stages6

-- The stages set a destination whenever they let a packet pass.
pub record Delivers (ss : List Stage) : Type 0 where
  pub sets :
      (f g : Flow)
      → execute_stages ss f ≡ (ok true, g)
      → (a : SocketAddr) × (g.ctx.dst_addr ≡ some a)

after-Delivers :
    (s : Stage) (ss : List Stage) (x : RelayResult Bool × Flow) (g : Flow)
    → Delivers ss
    → after s ss x ≡ (ok true, g)
    → (a : SocketAddr) × (g.ctx.dst_addr ≡ some a)
after-Delivers s ss (ok true, f) g h e = h.sets f g e
after-Delivers s ss (ok false, f) g h e = absurd (ground (arith, e))
after-Delivers s ss (err x, f) g h e = absurd (ground (arith, e))

cons-Delivers : {s : Stage} {ss : List Stage} → Delivers ss → Delivers (s ∷ ss)
cons-Delivers {s} {ss} h = record {
  sets = λ f g e. after-Delivers s ss (s.process f) g h (sym (execute_stages-cons s ss f) ∙ e);
}

append-Delivers : (ts : List Stage) {ss : List Stage} → Delivers ss → Delivers (ts ++ ss)
append-Delivers [] h = h
append-Delivers (t ∷ ts) h = cons-Delivers (append-Delivers ts h)

forward4-Delivers : (a : SocketAddr) → Delivers (Stages.forward_stage a ∷ [])
unfolding execute_stages Stages.forward_stage
forward4-Delivers a = record { sets = λ f g e. (a, sym (ap (λ x. x.1.ctx.dst_addr) e)) }

forward6-Delivers : (a : SocketAddr) → Delivers (Stages6.forward_stage a ∷ [])
unfolding execute_stages Stages6.forward_stage
forward6-Delivers a = record { sets = λ f g e. (a, sym (ap (λ x. x.1.ctx.dst_addr) e)) }

reply_addr-Delivers : (d : Dhcproto) → Delivers (Stages.reply_addr_stage d ∷ [])
unfolding execute_stages Stages.reply_addr_stage Stages.read_v4
reply_addr-Delivers d = record {
  sets = λ f g e. elim (Result-cases (d.decode f.ctx.buffer)) [
    | inl (m, h) ↦ (Stages.client_addr (d.ciaddr m), ground (arith, h, e))
    | inr (x, h) ↦ absurd (ground (arith, h, e))
  ];
}

ruleset delivers_rules =
    (forward4-Delivers, forward6-Delivers, reply_addr-Delivers, cons-Delivers, append-Delivers)

module _ (d : Dhcproto) where
  pub request4-Delivers :
      (addrs : List Ipv4Addr) (circuit remote : Option Bytes) (ip : Ipv4Addr) (server : SocketAddr)
      (vss : Option VssConfig) (flag : Bool)
      → Delivers (Build.build_request d addrs circuit remote ip server vss flag).stages
  unfolding Build.build_request
  request4-Delivers addrs circuit remote ip server vss flag = search delivers_rules depth 9

  pub reply4-Delivers :
      (expected : Option (List SubOption)) (vss : Option VssConfig) (flag : Bool)
      → Delivers (Build.build_reply d expected vss flag).stages
  unfolding Build.build_reply
  reply4-Delivers expected vss flag = search delivers_rules depth 9

module _ (d : DhcprotoV6) where
  pub request6-Delivers :
      (name id : Bytes) (link : Ipv6Addr) (peer server : SocketAddr) (vss : Option VssConfig)
      (flag1 flag2 : Bool)
      → Delivers (Stages6.build_request d name id link peer server vss flag1 flag2).stages
  unfolding Stages6.build_request
  request6-Delivers name id link peer server vss flag1 flag2 = search delivers_rules depth 9

  pub reply6-Delivers :
      (client : SocketAddr) (vss : Option VssConfig)
      → Delivers (Stages6.build_reply d client vss).stages
  unfolding Stages6.build_reply
  reply6-Delivers client vss = search delivers_rules depth 9
