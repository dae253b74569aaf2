-- ===== src/Capture.antt =====
-- The packet capture: 03-ipc-and-network-programming/08-raw-socket-packet-capture.
pub mod Filter
pub mod Packet
