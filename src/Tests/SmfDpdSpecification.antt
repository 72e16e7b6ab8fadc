-- ===== src/Tests/SmfDpdSpecification.antt =====
-- The theorems of Smf/Dpd/Specification.antt at concrete inputs.
use dhcp_relay_agent.Common.{◌≡◌}
use dhcp_relay_agent.Smf.Dpd.{new}
use dhcp_relay_agent.Smf.Dpd.Specification.{answers, answers-new, nothing, promised}
use dhcp_relay_agent.Tests.SamplesSmf.{history}

answers-new_example : answers history (new 10) ≡ promised 10 history nothing
answers-new_example = answers-new 10 history
