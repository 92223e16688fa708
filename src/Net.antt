-- ===== src/Net.antt =====
-- The servers and clients of Code/Ch10-networking.
mod Examples
pub mod Ack
pub mod CString
pub mod Hi
pub mod Line
pub mod Select
pub mod Stdio
pub mod Tcp
pub mod Udp
