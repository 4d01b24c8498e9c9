-- ===== src/Sdk.antt =====
-- The client of the LangGraph API: the streams of server-sent events of
-- libs/sdk-py/langgraph_sdk/sse.py, and the requests of libs/sdk-py/langgraph_sdk/_sync/http.py that
-- read them.
pub mod Lines
pub mod Bytes
pub mod Events
pub mod Feed
pub mod Http
pub mod Stream
mod Scan
mod Taking
mod Chunks
mod Attempts
mod Trusted
mod Origins
mod Rendering
mod RoundTrip
mod Samples
