-- ===== src/Config.antt =====
-- src/config.go: the configuration. A file's time and text and the JSON decoder are arguments; a
-- text is its list of characters; logging and the mutex are left out.
pub mod Ints
pub mod Tun
pub mod Servers
pub mod Destinations
pub mod Addresses
pub mod Manager
