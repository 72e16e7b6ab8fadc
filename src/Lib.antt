-- ===== src/Lib.antt =====
-- A DHCP relay agent: the DHCPv4 relay (RFC 3046, RFC 6607), the DHCPv6 relay (RFC 8415) and a
-- forwarding engine for multicast with duplicate packet detection (RFC 6621), of the Rust crate
-- under src/.
--
-- Parts. A task for each interface receives packets (src/lib.rs), tells clients' messages from
-- servers', and runs a pipeline of stages (src/pipeline.rs) on each, which dhcp/v4/pipeline.rs and
-- dhcp/v6/pipeline.rs build from the helpers beside them. What a pipeline leaves in its context is
-- sent. The multicast engine (src/smf) stands on its own: it checks the forwarding rules, asks a
-- relay set selector (src/traits/mod.rs) and decrements the TTL; a duplicate cache and the packets'
-- keys are offered beside it.
--
-- Correspondence.
--   Common       lists, options, results, association lists and UTF-8 over the native numbers
--   Net          the addresses of the standard library; Text and Socket read and print them
--   Error        src/error.rs; a formatted text is the list of its pieces
--   Config       src/config.rs: the records, their defaults and `validate`
--   Traits       src/traits/mod.rs as records of functions
--   Pipeline     src/pipeline.rs: `PipelineContext`, stages as actions that pass the context and a
--                log through and keep what was written where they fail, `execute`
--   V4           src/dhcp/v4: Giaddr (`validate`), Option82 (`insert`, `strip`, `validate_echo`),
--                Vss, Stages (every stage's `process`), Build (`build_request`, `build_reply`);
--                Request and Reply have the pipelines end to end, Holding their steps
--   V6           src/dhcp/v6: RelayFwd (`encapsulate`, `decapsulate`), Options (the three options),
--                Stages (every stage, `build_request`, `build_reply`); Extending, Naming,
--                Request and Reply as in V4
--   Smf          src/smf: Forwarding, Dpd (the cache; History for sequences of calls, Race for
--                interleaved ones, Specification for the memory that the cache stands for,
--                Eviction for `spawn_eviction_task`), DpdOption, Identifiers (the packet keys),
--                Engine
--   Transport    src/transport/udp.rs: `UdpTransport` with its buffer
--   Agent        src/lib.rs: the handlers and the counters, Receive (the dispatch of a packet and a
--                task's loop over what `select!` sees), Setup (what a task takes from the
--                configuration), Spawn (`run` up to its wait for the tasks, `spawn_v4_tasks`,
--                `spawn_v6_tasks`), Life (`RelayAgent`, `new`, `shutdown`), Watch (the channel of
--                the shutdown signal), Running (the starts and the rounds of all tasks and
--                the calls of `shutdown`, in any order), Atomic (a packet's accesses to the shared state,
--                those of several packets interleaved, and `snapshot` while they go on)
--   Tests        concrete codecs that satisfy what is assumed, and the theorems at concrete inputs
--
-- Parameters. The dhcproto crate is a record of operations for each version (V4/Dhcproto.antt,
-- V6/Dhcproto.antt) with its documented behaviour as laws: the codec decodes what it encoded, and
-- one part of a message is changed without the others. Theorems that run a stage which encodes
-- assume that every message can be encoded. The murmur3 hash and the selector are functions. What
-- a bind of a socket gives is a function of the earlier binds and the address (Transport.antt), and
-- the watch channel of tokio is a record of operations with its documented behaviour as laws
-- (Agent/Watch.antt).
--
-- Machine integers. The counters wrap at 2 ^ 64, lengths are cast to a u16 or a byte where the code
-- casts them, the flags byte of the SMF_DPD option is packed by the bit operations of the code.
-- Instants are nanoseconds, given to the operations that read the clock.
--
-- Fuel. `extract_from` and `support_from` recurse on fuel, the number of bytes, of which each round
-- takes some, so that without fuel there are no bytes. `decapsulate_from` recurses on the length of
-- the message, since a nested message is shorter than the one around it.
--
-- Features. The model is of a build with the features dhcpv4, dhcpv6 and smf. By default only dhcpv4
-- is on, and then `run` starts no DHCPv6 tasks.
--
-- Steps. A round of a task's loop, from the `select!` to the end of the handler, is one step. Before
-- each start of a task in `run`, between the two protocols and behind the last start, the tasks that
-- are started already make any rounds, and `shutdown` may be called. Agent/Atomic takes a packet's
-- processing apart into its atomic additions to the shared counters and its sending, for packets that
-- several tasks process at the same time. The eviction task's ticks are taken to come on time. Two
-- calls on one key of the duplicate cache are modelled with the steps between which the code holds no
-- lock.
--
-- Not modelled: serde's attributes, the accessors and `RelayEvent`, which hold no logic; the flow
-- label and the scope of an IPv6 socket address, which no code reads.
pub mod Common
pub mod Net
pub mod Error
pub mod Config
pub mod Traits
pub mod Transport
pub mod Smf
pub mod V6
pub mod Pipeline
pub mod V4
pub mod Agent
pub mod Tests
