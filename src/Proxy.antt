-- ===== src/Proxy.antt =====
-- src/aegis_gateway/api/proxy.py: `chat_completions`, in the order of its code, one function for each part
-- between two early returns. A request runs at one instant of the clock; what other requests do
-- between its awaits is in RateLimit/Slots/Races and Upstream/Outage.
pub mod Types
pub mod Stream
pub mod Streams
pub mod Handler
pub mod Slots
pub mod Locks
pub mod Tests
