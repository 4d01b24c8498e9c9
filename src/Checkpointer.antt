-- ===== src/Checkpointer.antt =====
-- libs/checkpoint/langgraph/checkpoint: the savers of checkpoints.
pub mod Serde
pub mod Objects
pub mod Metadata
pub mod Keys
pub mod InMemorySaver
pub mod Blobs
pub mod Agreement
pub mod Storing
pub mod Returning
pub mod Writing
pub mod Listing
pub mod Listed
pub mod Found
mod Samples
