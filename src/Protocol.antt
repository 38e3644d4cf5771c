-- ===== src/Protocol.antt =====
-- internal/protocol: the data that the parts of the program exchange.
pub mod Trace
pub mod Endpoint
pub mod Config
pub mod Matrix
