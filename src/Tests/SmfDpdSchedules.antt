-- ===== src/Tests/SmfDpdSchedules.antt =====
-- The theorems of Smf/Dpd/Schedules.antt at concrete inputs.
use dhcp_relay_agent.Common.{[], ok, refl, true, ◌∷◌}
use dhcp_relay_agent.Smf.Dpd.Race.{advance, both_idle, left, right, schedule, turn}
use dhcp_relay_agent.Smf.Dpd.Schedules.{Answered, schedule-Answered}
use dhcp_relay_agent.Tests.SamplesSmf.{empty_cache, key}
use dhcp_relay_agent.Common.Assoc

schedule-Answered_example :
    Answered key 7 4 8 4 empty_cache
      (ok true)
      (ok true)
      (schedule key 7 4 8 4 (left ∷ right ∷ left ∷ right ∷ []) (both_idle empty_cache)).cache
schedule-Answered_example =
    schedule-Answered key 7 4 8 4 empty_cache (left ∷ right ∷ left ∷ right ∷ []) (ok true) (ok true)
      (unfold schedule turn advance Assoc.lookup in refl)
      (unfold schedule turn advance Assoc.lookup in refl)
