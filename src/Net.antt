-- ===== src/Net.antt =====
-- net/: messages and the protocols over Ethernet.
pub mod ByteOrder
pub mod Arp
pub mod Ethernet
pub mod Ip
pub mod Legacy
pub mod Message
pub mod Receive
pub mod State
pub mod Udp
