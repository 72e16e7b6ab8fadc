-- ===== src/Agent/Atomic/Unlogged.antt =====
-- The stages of dhcp/v4/pipeline.rs and dhcp/v6/pipeline.rs do not read the log, and so no pipeline of
-- theirs does.
use dhcp_relay_agent.Common.{
  Bool, true, false, Option, none, some, List, [], ◌∷◌, ◌++◌, Bytes, ◌≡◌, refl, arith,
  if◌then◌else◌,
}
use dhcp_relay_agent.V4.Build
use dhcp_relay_agent.Net.{Ipv4Addr, Ipv6Addr, SocketAddr}
use dhcp_relay_agent.Error.{RelayResult}
use dhcp_relay_agent.Config.{VssConfig}
use dhcp_relay_agent.Pipeline.{PipelineContext, Notice, Flow, Stage, modify}
use dhcp_relay_agent.V4.Dhcproto.{Dhcproto}
use dhcp_relay_agent.V4.Option82.{SubOption}
use dhcp_relay_agent.V4.Stages
use dhcp_relay_agent.V6.Dhcproto.{DhcprotoV6}
use dhcp_relay_agent.V6.Stages as Stages6

-- Two outcomes that differ in their logs at most.
abbrev pub Same : RelayResult Bool × Flow → RelayResult Bool × Flow → Type 0
Same x y = (x.0 ≡ y.0) × (x.1.ctx ≡ y.1.ctx)

abbrev pub flow : PipelineContext → List Notice → Flow
flow c l = record { ctx = c; log = l }

pub record Unlogged (s : Stage) : Type 0 where
  pub same :
      (c : PipelineContext) (l l' : List Notice)
      → Same (s.process (flow c l)) (s.process (flow c l'))

pub forward4-Unlogged : (a : SocketAddr) → Unlogged (Stages.forward_stage a)
unfolding Stages.forward_stage
forward4-Unlogged a = record { same = λ c l l'. (refl, refl) }

module _ (d : Dhcproto) where
  pub parse4-Unlogged : Unlogged (Stages.parse_stage d)
  unfolding Stages.parse_stage modify
  parse4-Unlogged = record { same = λ c l l'. (ground arith, ground arith) }

  pub validate-Unlogged : (addrs : List Ipv4Addr) → Unlogged (Stages.validate_stage d addrs)
  unfolding Stages.validate_stage Stages.act_on Stages.read_v4
  validate-Unlogged addrs = record { same = λ c l l'. (ground arith, ground arith) }

  pub insert-Unlogged :
      (circuit remote : Option Bytes) → Unlogged (Stages.option82_insert_stage d circuit remote)
  unfolding Stages.option82_insert_stage modify
  insert-Unlogged circuit remote = record { same = λ c l l'. (ground arith, ground arith) }

  pub strip-Unlogged :
      (expected : Option (List SubOption)) → Unlogged (Stages.option82_strip_stage d expected)
  unfolding Stages.option82_strip_stage modify
  strip-Unlogged expected = record { same = λ c l l'. (ground arith, ground arith) }

  pub giaddr-Unlogged : (ip : Ipv4Addr) → Unlogged (Stages.giaddr_stage d ip)
  unfolding Stages.giaddr_stage modify
  giaddr-Unlogged ip = record { same = λ c l l'. (ground arith, ground arith) }

  pub reply_addr-Unlogged : Unlogged (Stages.reply_addr_stage d)
  unfolding Stages.reply_addr_stage Stages.read_v4
  reply_addr-Unlogged = record { same = λ c l l'. (ground arith, ground arith) }

  pub vss_insert4-Unlogged : (vss : VssConfig) → Unlogged (Stages.vss_insert_stage d vss)
  unfolding Stages.vss_insert_stage modify
  vss_insert4-Unlogged vss = record { same = λ c l l'. (ground arith, ground arith) }

  pub vss_check-Unlogged : (vss : VssConfig) → Unlogged (Stages.vss_check_stage d vss)
  unfolding Stages.vss_check_stage Stages.read_v4 Stages.check_info Stages.compare_vpn
  vss_check-Unlogged vss = record { same = λ c l l'. (ground arith, ground arith) }

pub forward6-Unlogged : (a : SocketAddr) → Unlogged (Stages6.forward_stage a)
unfolding Stages6.forward_stage
forward6-Unlogged a = record { same = λ c l l'. (refl, refl) }

pub relay_fwd-Unlogged :
    (link : Ipv6Addr) (peer : SocketAddr) → Unlogged (Stages6.relay_fwd_stage link peer)
unfolding Stages6.relay_fwd_stage
relay_fwd-Unlogged link peer = record { same = λ c l l'. (ground arith, ground arith) }

pub relay_reply-Unlogged : Unlogged Stages6.relay_reply_stage
unfolding Stages6.relay_reply_stage
relay_reply-Unlogged = record { same = λ c l l'. (ground arith, ground arith) }

module _ (d : DhcprotoV6) where
  pub parse6-Unlogged : Unlogged (Stages6.parse_stage d)
  unfolding Stages6.parse_stage Stages6.read_v6
  parse6-Unlogged = record { same = λ c l l'. (ground arith, ground arith) }

  pub interface_id-Unlogged : (name : Bytes) → Unlogged (Stages6.interface_id_stage d name)
  unfolding Stages6.interface_id_stage Stages6.add_option modify
  interface_id-Unlogged name = record { same = λ c l l'. (ground arith, ground arith) }

  pub remote_id-Unlogged : (id : Bytes) → Unlogged (Stages6.remote_id_stage d id)
  unfolding Stages6.remote_id_stage Stages6.add_option modify
  remote_id-Unlogged id = record { same = λ c l l'. (ground arith, ground arith) }

  pub interface_id_extract-Unlogged : Unlogged (Stages6.interface_id_extract_stage d)
  unfolding Stages6.interface_id_extract_stage Stages6.put_interface Stages6.read_v6
  interface_id_extract-Unlogged = record { same = λ c l l'. (ground arith, ground arith) }

  pub vss_insert6-Unlogged : (vss : VssConfig) → Unlogged (Stages6.vss_insert_stage d vss)
  unfolding Stages6.vss_insert_stage Stages6.add_option modify
  vss_insert6-Unlogged vss = record { same = λ c l l'. (ground arith, ground arith) }

  pub vss_extract-Unlogged : (vss : VssConfig) → Unlogged (Stages6.vss_extract_stage d vss)
  unfolding Stages6.vss_extract_stage Stages6.compare_vpn Stages6.read_v6
  vss_extract-Unlogged vss = record { same = λ c l l'. (ground arith, ground arith) }

-- All of a pipeline.
pub data AllUnlogged : List Stage → Type 0 where
  no_stage : AllUnlogged []
  a_stage : {s : Stage} {ss : List Stage} → Unlogged s → AllUnlogged ss → AllUnlogged (s ∷ ss)

append-AllUnlogged : {ts ss : List Stage} → AllUnlogged ts → AllUnlogged ss → AllUnlogged (ts ++ ss)
append-AllUnlogged no_stage h = h
append-AllUnlogged (a_stage u us) h = a_stage u (append-AllUnlogged us h)

optional-AllUnlogged :
    {A : Type 0} (x : Option A) (stage : A → Stage)
    → ((a : A) → Unlogged (stage a))
    → AllUnlogged (Build.optional x stage)
optional-AllUnlogged none stage h = no_stage
optional-AllUnlogged (some a) stage h = a_stage (h a) no_stage

if-AllUnlogged : (b : Bool) {s : Stage} → Unlogged s → AllUnlogged (if b then s ∷ [] else [])
if-AllUnlogged true h = a_stage h no_stage
if-AllUnlogged false h = no_stage

module _ (d : Dhcproto) where
  pub request4-AllUnlogged :
      (addrs : List Ipv4Addr) (circuit remote : Option Bytes) (ip : Ipv4Addr) (server : SocketAddr)
      (vss : Option VssConfig) (flag : Bool)
      → AllUnlogged (Build.build_request d addrs circuit remote ip server vss flag).stages
  unfolding Build.build_request
  request4-AllUnlogged addrs circuit remote ip server vss flag = a_stage (parse4-Unlogged d) (
      a_stage (validate-Unlogged d addrs) (
        append-AllUnlogged (if-AllUnlogged flag (insert-Unlogged d circuit remote)) (
          append-AllUnlogged (optional-AllUnlogged vss _ (vss_insert4-Unlogged d))
            (a_stage (giaddr-Unlogged d ip) (a_stage (forward4-Unlogged server) no_stage)))))

  pub reply4-AllUnlogged :
      (expected : Option (List SubOption)) (vss : Option VssConfig) (flag : Bool)
      → AllUnlogged (Build.build_reply d expected vss flag).stages
  unfolding Build.build_reply
  reply4-AllUnlogged expected vss flag = a_stage (parse4-Unlogged d) (
      append-AllUnlogged (optional-AllUnlogged vss _ (vss_check-Unlogged d)) (
        append-AllUnlogged (if-AllUnlogged flag (strip-Unlogged d expected))
          (a_stage (reply_addr-Unlogged d) no_stage)))

module _ (d : DhcprotoV6) where
  pub request6-AllUnlogged :
      (name id : Bytes) (link : Ipv6Addr) (peer server : SocketAddr) (vss : Option VssConfig)
      (flag1 flag2 : Bool)
      → AllUnlogged (Stages6.build_request d name id link peer server vss flag1 flag2).stages
  unfolding Stages6.build_request
  request6-AllUnlogged name id link peer server vss flag1 flag2 = a_stage (parse6-Unlogged d) (
      append-AllUnlogged (if-AllUnlogged flag1 (interface_id-Unlogged d name)) (
        append-AllUnlogged (if-AllUnlogged flag2 (remote_id-Unlogged d id)) (
          append-AllUnlogged (optional-AllUnlogged vss _ (vss_insert6-Unlogged d)) (
            a_stage (relay_fwd-Unlogged link peer) (a_stage (forward6-Unlogged server) no_stage)))))

  pub reply6-AllUnlogged :
      (client : SocketAddr) (vss : Option VssConfig)
      → AllUnlogged (Stages6.build_reply d client vss).stages
  unfolding Stages6.build_reply
  reply6-AllUnlogged client vss = a_stage (parse6-Unlogged d) (
      append-AllUnlogged (optional-AllUnlogged vss _ (vss_extract-Unlogged d)) (
        a_stage relay_reply-Unlogged (
          a_stage (interface_id_extract-Unlogged d) (a_stage (forward6-Unlogged client) no_stage))))
