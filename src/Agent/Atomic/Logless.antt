-- ===== src/Agent/Atomic/Logless.antt =====
-- What a packet does does not depend on the log that its task finds: the pipelines that lib.rs runs
-- only append to it.
use dhcp_relay_agent.Common.{
  Bool, true, false, List, ◌∷◌, Bytes, ok, err, ◌≡◌, refl, subst, ap, ◌∙◌, arith, Result-cases,
  Bool-cases, inl, inr, ◌==◌, nat_eq,
}
use dhcp_relay_agent.Net.{SocketAddr}
use dhcp_relay_agent.Error.{RelayResult}
use dhcp_relay_agent.Pipeline.{
  PipelineContext, Notice, Flow, Stage, Pipeline, execute_stages, execute, new_context,
}
use dhcp_relay_agent.Pipeline.Execution.{after, execute_stages-cons}
use dhcp_relay_agent.V4.Dhcproto.{Dhcproto}
use dhcp_relay_agent.V4.Build
use dhcp_relay_agent.V6.Dhcproto.{DhcprotoV6}
use dhcp_relay_agent.V6.RelayFwd.{relay_repl}
use dhcp_relay_agent.V6.Stages as Stages6
use dhcp_relay_agent.Agent.{link_addr}
use dhcp_relay_agent.Agent.Receive.{
  Task, v4_task, v6_task, V4Task, V6Task, vss_if, is_client4, is_client6, expected_sub_opts,
  first_byte,
}
use dhcp_relay_agent.Agent.Atomic.{
  Effect, counts_received, after_v4_client, after_v4_server, after_v6, effects_v4, effects_v6,
  effects,
}
use dhcp_relay_agent.Agent.Atomic.Unlogged.{
  AllUnlogged, no_stage, a_stage, request4-AllUnlogged, reply4-AllUnlogged, request6-AllUnlogged,
  reply6-AllUnlogged, Same, flow,
}

-- The stages behind one, after outcomes of it that differ in their logs at most.
after-Same :
    (s : Stage) (ss : List Stage) (x y : RelayResult Bool × Flow)
    → ((c : PipelineContext) (l l' : List Notice)
        → Same (execute_stages ss (flow c l)) (execute_stages ss (flow c l')))
    → Same x y
    → Same (after s ss x) (after s ss y)
after-Same s ss (r, f) (r', f') ih (e, c) =
    subst (λ p. Same (after s ss (r, f)) (after s ss (p, f'))) e
      (subst (λ d. Same (after s ss (r, f)) (after s ss (r, flow d f'.log))) c (same_result r))
  where
    same_result :
        (r : RelayResult Bool) → Same (after s ss (r, f)) (after s ss (r, flow f.ctx f'.log))
    same_result (ok true) = ih f.ctx f.log f'.log
    same_result (ok false) = (refl, refl)
    same_result (err x) = (refl, refl)

execute_stages-Same :
    {ss : List Stage}
    → AllUnlogged ss
    → (c : PipelineContext) (l l' : List Notice)
    → Same (execute_stages ss (flow c l)) (execute_stages ss (flow c l'))
execute_stages-Same no_stage c l l' = unfold execute_stages in (refl, refl)
execute_stages-Same (a_stage {s} {ss} u us) c l l' =
    rw (execute_stages-cons s ss (flow c l), execute_stages-cons s ss (flow c l'))
      (after-Same s ss (s.process (flow c l)) (s.process (flow c l')) (execute_stages-Same us)
        (u.same c l l'))

-- A reaction to a pipeline's outcome that does not read the log.
record IgnoresLog (react : RelayResult Bool × Flow → List Effect) : Type 0 where
  ignores :
      (r : RelayResult Bool) (c : PipelineContext) (l l' : List Notice)
      → react (r, flow c l) ≡ react (r, flow c l')

client4-IgnoresLog : IgnoresLog after_v4_client
unfolding after_v4_client
client4-IgnoresLog = record { ignores = λ r c l l'. ground arith }

server4-IgnoresLog : IgnoresLog after_v4_server
unfolding after_v4_server
server4-IgnoresLog = record { ignores = λ r c l l'. ground arith }

v6-IgnoresLog : IgnoresLog after_v6
unfolding after_v6
v6-IgnoresLog = record { ignores = λ r c l l'. ground arith }

react-Same :
    {react : RelayResult Bool × Flow → List Effect} (x y : RelayResult Bool × Flow)
    → IgnoresLog react
    → Same x y
    → react x ≡ react y
react-Same {react} (r, f) (r', f') h (e, c) =
    h.ignores r f.ctx f.log f'.log
    ∙ ap (λ z. react (r, flow z f'.log)) c
    ∙ ap (λ z. react (z, f')) e

execute-log :
    {react : RelayResult Bool × Flow → List Effect} (p : Pipeline) (c : PipelineContext)
    (l l' : List Notice)
    → AllUnlogged p.stages
    → IgnoresLog react
    → react (execute p (flow c l)) ≡ react (execute p (flow c l'))
unfolding execute
execute-log p c l l' u h =
    react-Same (execute_stages p.stages (flow c l)) (execute_stages p.stages (flow c l')) h
      (execute_stages-Same u c l l')

module _ (data_bytes : Bytes) (src : SocketAddr) (l l' : List Notice) where
  effects_v4-log :
      (d : Dhcproto) (t : V4Task)
      → effects_v4 d t data_bytes src l ≡ effects_v4 d t data_bytes src l'
  unfolding effects_v4
  effects_v4-log d t =
      let vss = vss_if t.vss_enabled t.vss_cfg in
      let c = new_context data_bytes src t.iface_name in
      elim (Result-cases (d.decode data_bytes)) [
        | inl (m, e) ↦ elim (Bool-cases (is_client4 (d.msg_type m))) [
          | inl y ↦
              rw (e, y)
                (ap (λ es. counts_received ∷ es)
                  (execute-log
                    (Build.build_request d t.local_addrs t.circuit_id t.remote_id t.iface_ip
                      t.server_addr vss t.enable_option82)
                    c l l'
                    (request4-AllUnlogged d t.local_addrs t.circuit_id t.remote_id t.iface_ip
                      t.server_addr vss t.enable_option82)
                    client4-IgnoresLog))
          | inr n ↦
              rw (e, n)
                (ap (λ es. counts_received ∷ es)
                  (execute-log (Build.build_reply d (expected_sub_opts d m) vss t.enable_option82) c
                    l l' (reply4-AllUnlogged d (expected_sub_opts d m) vss t.enable_option82)
                    server4-IgnoresLog))
        ]
        | inr (x, e) ↦ rw e
      ]

  effects_v6-log :
      (d : DhcprotoV6) (t : V6Task)
      → effects_v6 d t data_bytes src l ≡ effects_v6 d t data_bytes src l'
  unfolding effects_v6
  effects_v6-log d t =
      let vss = vss_if t.vss_enabled t.vss_cfg in
      let link = link_addr t.local_addr in
      let c = new_context data_bytes src t.iface_name in
      elim (Bool-cases (first_byte data_bytes == relay_repl)) [
        | inl y ↦ rw y (
            ap (λ es. counts_received ∷ es)
              (execute-log (Stages6.build_reply d src vss) c l l' (reply6-AllUnlogged d src vss)
                v6-IgnoresLog))
        | inr n ↦ elim (Result-cases (d.decode data_bytes)) [
          | inl (m, e) ↦ elim (Bool-cases (is_client6 (d.msg_type m))) [
            | inl y ↦
                rw (n, e, y)
                  (ap (λ es. counts_received ∷ es)
                    (execute-log
                      (Stages6.build_request d t.iface_name t.remote_id link src t.server_addr vss
                        t.enable_interface_id t.enable_remote_id)
                      c l l'
                      (request6-AllUnlogged d t.iface_name t.remote_id link src t.server_addr vss
                        t.enable_interface_id t.enable_remote_id)
                      v6-IgnoresLog))
            | inr z ↦ rw (n, e, z)
          ]
          | inr (x, e) ↦ rw (n, e)
        ]
      ]

pub effects-log :
    (t : Task) (data_bytes : Bytes) (src : SocketAddr) (l l' : List Notice)
    → effects t data_bytes src l ≡ effects t data_bytes src l'
effects-log (v4_task d t) data_bytes src l l' = effects_v4-log data_bytes src l l' d t
effects-log (v6_task d t) data_bytes src l l' = effects_v6-log data_bytes src l l' d t
