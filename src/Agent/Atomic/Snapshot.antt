-- ===== src/Agent/Atomic/Snapshot.antt =====
-- `snapshot` of the counters (lib.rs): they are loaded one after the other, while the tasks go on
-- with their accesses.
pub mod Bounds
use dhcp_relay_agent.Common.{ℕ, zero, suc, ◌+◌, ◌^◌, ◌<◌, List, length}
use dhcp_relay_agent.Agent.{RelayStats}
use dhcp_relay_agent.Agent.Atomic.{Effect, stats_after}

pub record RelayStatsSnapshot : Type 0 where
  pub packets_received : ℕ
  pub packets_forwarded : ℕ
  pub packets_dropped_parse_error : ℕ
  pub packets_dropped_spoof : ℕ
  pub option82_inserted : ℕ
  pub option82_stripped : ℕ
  pub vss_not_supported : ℕ
  pub smf_duplicates_detected : ℕ
  pub smf_forwarded : ℕ

-- `gaps k` are the accesses of the tasks between the loads of the counters k and k + 1.
unfoldable pub moment : (ℕ → List Effect) → RelayStats → ℕ → RelayStats
moment gaps s zero = s
moment gaps s (suc k) = stats_after (gaps k) (moment gaps s k)

unfoldable pub snapshot : (ℕ → List Effect) → RelayStats → RelayStatsSnapshot
snapshot gaps s = record {
  packets_received = (moment gaps s 0).packets_received;
  packets_forwarded = (moment gaps s 1).packets_forwarded;
  packets_dropped_parse_error = (moment gaps s 2).packets_dropped_parse_error;
  packets_dropped_spoof = (moment gaps s 3).packets_dropped_spoof;
  option82_inserted = (moment gaps s 4).option82_inserted;
  option82_stripped = (moment gaps s 5).option82_stripped;
  vss_not_supported = (moment gaps s 6).vss_not_supported;
  smf_duplicates_detected = (moment gaps s 7).smf_duplicates_detected;
  smf_forwarded = (moment gaps s 8).smf_forwarded;
}

-- The number of accesses before the load of counter k.
abbrev pub accesses : (ℕ → List Effect) → ℕ → ℕ
accesses gaps zero = 0
accesses gaps (suc k) = accesses gaps k + length (gaps k)

-- Counters that can be increased so often without wrapping.
pub record HasRoom (n : ℕ) (s : RelayStats) : Type 0 where
  pub received : s.packets_received + n < 2 ^ 64
  pub forwarded : s.packets_forwarded + n < 2 ^ 64
  pub spoof : s.packets_dropped_spoof + n < 2 ^ 64
  pub stripped : s.option82_stripped + n < 2 ^ 64
