-- ===== src/Echo.antt =====
-- The echo service over raw UDP: 03-ipc-and-network-programming/cross-01-raw-udp-echo.
pub mod Protocol
pub mod Server
