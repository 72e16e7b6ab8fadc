-- ===== src/Tests/SmfDpdEviction.antt =====
-- The theorems of Smf/Dpd/Eviction.antt at concrete inputs.
use dhcp_relay_agent.Common.{arith, refl, ◌+◌, ◌/◌, ◌<◌}
use dhcp_relay_agent.Smf.Dpd.{check_and_insert, evict_expired, eviction_interval, judge}
use dhcp_relay_agent.Smf.Dpd.Eviction.{arrival, over, run-Ticking, tick}
use dhcp_relay_agent.Smf.Dpd.History.{run, step}
use dhcp_relay_agent.Tests.SamplesSmf.{key, key_entry, ticked}
use dhcp_relay_agent.Common.Assoc

run-Ticking_example : 7 < key_entry.first_seen + 8000000000 + 8000000000 / 4
run-Ticking_example =
    run-Ticking 8000000000 2000000000 0 7 ticked key key_entry (unfold eviction_interval in refl)
      (tick (omega arith)
        (arrival key 5 4 (omega arith) (omega arith) (over (omega arith) (omega arith))))
      (unfold run step check_and_insert judge evict_expired Assoc.lookup Assoc.insert
          Assoc.retain in
        refl)
