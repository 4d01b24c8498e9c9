-- ===== src/Loop.antt =====
-- The loop of a run: `PregelLoop` of libs/langgraph/langgraph/pregel/_loop.py, what the runner
-- (_runner.py) gives it, and the `while` of `Pregel.stream` (main.py) around both.
pub mod State
pub mod Put
pub mod Pending
pub mod Tick
pub mod Run
mod Steps
mod Supersteps
mod Runs
mod Resuming
mod Signals
mod Starting
mod Finishing
mod Touching
mod Interleaving
mod Committing
mod Samples
mod TwoNodes
