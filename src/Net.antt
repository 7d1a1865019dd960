-- ===== src/Net.antt =====
-- The address of a client behind proxies (server/app/core/client_ip.py).
pub mod ClientIp
pub mod Forwarded
mod Tests
