-- ===== src/Server.antt =====
-- proxy/server.py: `ProxyServer`.
pub mod Frames
pub mod State
pub mod Acks
pub mod Box
pub mod Cloud
pub mod Keeps
pub mod SameBox
pub mod Answers
pub mod Forwarding
pub mod Bytes
pub mod Closing
pub mod Offline
pub mod Connections
