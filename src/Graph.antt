-- ===== src/Graph.antt =====
-- libs/langgraph/langgraph/graph: the reducers of messages.
pub mod Message
pub mod Compact
pub mod Finding
pub mod Steps
pub mod Indexing
pub mod Batching
pub mod AddMessages
pub mod Parity
mod Samples
