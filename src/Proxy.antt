-- ===== src/Proxy.antt =====
-- internal/proxy: the streams and the pool of their connections.
pub mod Connections
pub mod Stream
