-- ===== src/Tests.antt =====
-- Tests: concrete codecs that satisfy what is assumed of dhcproto, and the theorems at concrete
-- inputs.
pub mod CodecV4
pub mod CodecV6
pub mod Samples
pub mod AgentReplies
pub mod V4RequestRejected
pub mod V4Reply
pub mod V6Reply
pub mod V6RelayFwdLayers
pub mod SmfDpdHistory
pub mod SmfEngineForwards
pub mod V4RequestReforwarded
pub mod ConfigValidity
pub mod SmfDpdOptionRoundTrip
pub mod SmfIdentifiersKeys
pub mod SamplesV6
pub mod SamplesSmf
pub mod AgentSetup
pub mod SamplesAgent
pub mod AgentSpawnStarted
pub mod AgentSpawnFailing
pub mod AgentRunningShutdown
pub mod AgentRunningCounted
pub mod SmfDpdSpecification
pub mod SmfDpdEviction
pub mod Transport
pub mod AgentRunningWaiting
pub mod SmfDpdSchedules
pub mod AgentAtomicInterleaving
pub mod AgentAtomicMoments
pub mod AgentAtomicSnapshotBounds
