-- ===== src/Channels.antt =====
-- libs/langgraph/langgraph/channels
pub mod LastValue
pub mod LastValueAfterFinish
pub mod EphemeralValue
pub mod AnyValue
pub mod UntrackedValue
pub mod Topic
pub mod BinaryOperatorAggregate
pub mod DeltaChannel
pub mod NamedBarrierValue
pub mod NamedBarrierValueAfterFinish
pub mod Channel
pub mod Availability
pub mod Unchanged
pub mod Persistence
mod Reached
pub mod Barrier
pub mod Folding
pub mod Settle
pub mod Replay
pub mod Steps
mod Samples
