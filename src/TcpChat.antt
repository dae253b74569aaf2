-- ===== src/TcpChat.antt =====
-- The stream chat with file transfer: 03-ipc-and-network-programming/07-tcp-chat-and-file-transfer.
pub mod Protocol
pub mod Server
