-- ===== src/Tests/ConfigValidity.antt =====
-- The theorems of Config/Validity.antt at concrete inputs.
use dhcp_relay_agent.Common.{ok, ◌↔◌, ◌≡◌}
use dhcp_relay_agent.Config.{validate}
use dhcp_relay_agent.Config.Validity.{IsValid, validate-ok_iff}
use dhcp_relay_agent.Tests.Samples.{some_config}

validate-ok_iff_example : (validate some_config ≡ ok tt) ↔ IsValid some_config
validate-ok_iff_example = validate-ok_iff some_config
