-- ===== src/Tests/SmfDpdHistory.antt =====
-- The theorems of Smf/Dpd/History.antt at concrete inputs.
use dhcp_relay_agent.Common.{arith, ok, refl, true, ◌≢◌}
use dhcp_relay_agent.Smf.Dpd.{check_and_insert, judge}
use dhcp_relay_agent.Smf.Dpd.History.{no_second_acceptance, run}
use dhcp_relay_agent.Tests.SamplesSmf.{cache, history, key}
use dhcp_relay_agent.Common.Assoc

no_second_acceptance_example :
    (check_and_insert key 8 4 (run history (check_and_insert key 5 4 cache).1)).0 ≢ ok true
no_second_acceptance_example =
    no_second_acceptance key 5 4 cache history 8 4 (unfold Assoc.lookup in refl, tt)
      (unfold check_and_insert judge Assoc.lookup in refl)
      ((omega arith, omega arith), ((omega arith, omega arith), tt)) (omega arith)
