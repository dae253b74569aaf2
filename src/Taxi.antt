-- ===== src/Taxi.antt =====
-- The taxi process manager: 03-ipc-and-network-programming/cross-02-taxi-process-manager.
pub mod Protocol
pub mod Driver
pub mod Cli
