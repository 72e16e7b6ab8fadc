-- ===== src/Smf/Dpd.antt =====
-- smf/dpd.rs: duplicate packet detection. The cache's map is keyed by source, destination and
-- packet identifier. `Instant::now()` is the argument `now`; instants and durations are in
-- nanoseconds.
pub mod Verdict
pub mod History
pub mod Race
pub mod Schedules
pub mod Specification
pub mod Eviction
use dhcp_relay_agent.Common.{
  ℕ, ◌+◌, ◌*◌, ◌/◌, ◌^◌, ◌≡◌, ◌↔◌, Bool, true, false, ◌&&◌, Option, none, some, List, [], arith,
  Result, ok, err, Eq, ◌==◌, nat_eq, nat_beq, ltb, if◌then◌else◌, length, is_empty,
}
use dhcp_relay_agent.Common.Assoc
use dhcp_relay_agent.Net.{IpAddr, ip_beq, ip_beq_iff}
use dhcp_relay_agent.Error.{RelayError, RelayResult}

pub record DpdKey : Type 0 where
  pub src_addr : IpAddr
  pub dst_addr : IpAddr
  pub packet_id : ℕ

abbrev pub key_beq : DpdKey → DpdKey → Bool
key_beq x y =
    ip_beq x.src_addr y.src_addr && ip_beq x.dst_addr y.dst_addr && nat_beq x.packet_id y.packet_id

pub key_beq_iff : (x y : DpdKey) → (key_beq x y ≡ true) ↔ (x ≡ y)
key_beq_iff x y = ground (arith, ip_beq_iff x.src_addr y.src_addr, ip_beq_iff x.dst_addr y.dst_addr)

instance abbrev pub key_eq : Eq DpdKey
key_eq = record { beq = key_beq; beq_iff = key_beq_iff }

pub record DpdEntry : Type 0 where
  pub first_seen : ℕ
  pub ttl : ℕ

pub record DpdCache : Type 0 where
  pub map : List (DpdKey × DpdEntry)
  pub window : ℕ

-- `DpdCache::new`
abbrev pub new : ℕ → DpdCache
new window = record { map = []; window = window }

abbrev pub find : DpdKey → DpdCache → Option DpdEntry
find key c = Assoc.lookup key c.map

abbrev pub store : DpdKey → DpdEntry → DpdCache → DpdCache
store key entry c = record c { map = Assoc.insert key entry c.map }

-- What `check_and_insert` does with an entry that is there: the entry is changed in place.
unfoldable pub judge : DpdKey → ℕ → ℕ → DpdEntry → DpdCache → RelayResult Bool × DpdCache
judge key now ttl entry c =
    if ltb entry.ttl ttl
    then (ok true, store key (record { first_seen = now; ttl = ttl }) c)
    else if entry.ttl == ttl
    then (ok false, c)
    else (err RelayError.dpd_stale_packet, c)

unfoldable pub check_and_insert : DpdKey → ℕ → ℕ → DpdCache → RelayResult Bool × DpdCache
unfolding judge
check_and_insert key now ttl c = elim (find key c) [
  | some entry ↦ judge key now ttl entry c
  | none ↦ (ok true, store key (record { first_seen = now; ttl = ttl }) c)
]

-- `entry.first_seen > now - window`, where instants do not reach back to zero.
abbrev pub is_fresh : ℕ → ℕ → DpdEntry → Bool
is_fresh now window entry = ltb now (entry.first_seen + window)

unfoldable pub evict_expired : ℕ → DpdCache → DpdCache
evict_expired now c = record c { map = Assoc.retain (is_fresh now c.window) c.map }

unfoldable pub len : DpdCache → ℕ
len c = length c.map

unfoldable pub is_cache_empty : DpdCache → Bool
is_cache_empty c = is_empty c.map

unfoldable pub clear : DpdCache → DpdCache
clear c = record c { map = [] }

abbrev pub second : ℕ
second = 10 ^ 9

-- The interval of `spawn_eviction_task`; without one nothing is ever evicted.
unfoldable pub eviction_interval : DpdCache → Option ℕ
eviction_interval c =
    let interval = c.window / 4 in if ltb interval second then none else some interval
