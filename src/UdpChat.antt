-- ===== src/UdpChat.antt =====
-- The broadcast chat: 03-ipc-and-network-programming/06-udp-broadcast-chat.
pub mod Protocol
