-- ===== src/Store.antt =====
-- `InMemoryStore` of libs/checkpoint/langgraph/store/memory/__init__.py, and the methods of
-- `BaseStore` of libs/checkpoint/langgraph/store/base/__init__.py that it inherits.
pub mod Namespaces
pub mod Filter
pub mod InMemoryStore
pub mod BaseStore
mod Places
mod Puts
mod Answers
mod Batches
mod Listed
mod Searching
mod Samples
