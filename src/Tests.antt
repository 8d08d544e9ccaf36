-- ===== src/Tests.antt =====
-- Runs of the program's parts at concrete inputs.
mod Packets
mod Sessions
mod Relays
mod Gateways
mod Bridges
mod Calls
mod Configs
mod Names
mod Routes
mod Addresses
