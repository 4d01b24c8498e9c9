-- ===== src/Cache.antt =====
-- `InMemoryCache` of libs/checkpoint/langgraph/cache/memory/__init__.py
pub mod InMemoryCache
mod Entries
mod Lookup
mod Samples
