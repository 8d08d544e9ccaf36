-- ===== src/X25.antt =====
-- src/x25.go: X.25 packets, their call setup fields and their facilities.
pub mod Packet
pub mod Address
pub mod Facilities
pub mod CallSetup
pub mod Create
pub mod Names
