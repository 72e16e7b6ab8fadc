-- ===== src/V4/VssCheck.antt =====
-- `VssCheckStage` of dhcp/v4/pipeline.rs and what it leaves of the context.
use dhcp_relay_agent.Common.{
  true, false, Option, none, some, [], ◌∷◌, ◌++◌, Bytes, ok, ◌≡◌, refl, arith, inl, inr, Bool-cases,
}
use dhcp_relay_agent.Net.{ipv4_eq}
use dhcp_relay_agent.Error.{RelayResult}
use dhcp_relay_agent.Config.{VssConfig}
use dhcp_relay_agent.Pipeline.{vss_unsupported, Flow}
use dhcp_relay_agent.V4.Dhcproto.{Dhcproto, IsDhcproto}
use dhcp_relay_agent.V4.Option82.{agent_info}
use dhcp_relay_agent.V4.Stages.{read_v4, vss_check_stage, check_info, compare_vpn, scan}
use dhcp_relay_agent.V4.Holding.{Encodes, Holds}

-- An action that succeeds with a value and changes nothing but the log.
abbrev pub OnlyLogs : {A : Type 0} → A → Flow → RelayResult A × Flow → Type 0
OnlyLogs a f x = (x.0 ≡ ok a) × (x.1.ctx ≡ f.ctx)

module _ (d : Dhcproto) (law : IsDhcproto d) (total : Encodes d) where
  compare_vpn-OnlyLogs :
      (vss : VssConfig) (seen : Option Bytes) (f : Flow) → OnlyLogs tt f (compare_vpn vss seen f)
  unfolding compare_vpn
  compare_vpn-OnlyLogs vss none f = (refl, refl)
  compare_vpn-OnlyLogs vss (some info) f = ground arith

  check_info-OnlyLogs :
      (vss : VssConfig) (info : Option d.AgentInfo) (f : Flow)
      → OnlyLogs tt f (check_info d vss info f)
  unfolding check_info
  check_info-OnlyLogs vss none f = (refl, refl)
  check_info-OnlyLogs vss (some info) f =
      let found = scan d (d.iter info) (false, none) in
      elim (Bool-cases found.0) [
        | inl e ↦
            rw e
              (compare_vpn-OnlyLogs vss found.1 (record f { log = f.log ++ vss_unsupported ∷ [] }))
        | inr e ↦ rw e (compare_vpn-OnlyLogs vss found.1 f)
      ]

  pub vss_check-OnlyLogs :
      (vss : VssConfig) (m : d.Message) (f : Flow)
      → Holds d law total m f
      → OnlyLogs true f ((vss_check_stage d vss).process f)
  unfolding vss_check_stage read_v4
  vss_check-OnlyLogs vss m f h = ground (arith, h, check_info-OnlyLogs vss (agent_info d m) f)
