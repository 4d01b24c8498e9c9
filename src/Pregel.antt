-- ===== src/Pregel.antt =====
-- libs/langgraph/langgraph/pregel: the tasks of a step, what their writes do to the channels, and
-- the checkpoints between the steps.
pub mod Constants
pub mod Checkpoint
pub mod Task
pub mod ApplyWrites
pub mod Loops
pub mod Versions
pub mod Order
pub mod Io
pub mod Commands
pub mod Outputs
pub mod NextTasks
pub mod Checkpointing
pub mod Saved
pub mod Saving
pub mod RoundTrip
pub mod Candidates
pub mod Firing
pub mod Preparing
mod Samples
