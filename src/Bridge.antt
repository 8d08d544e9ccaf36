-- ===== src/Bridge.antt =====
-- src/cmd/xot-server/main.go and src/cmd/xot-gateway/main.go: the two processes that carry a call
-- between two connections. They have the decision on a packet and the relay of a call in common;
-- what a process does not have stays unused in the other's state. `near` is the connection that the
-- call came in on (conn), and `far` the one that was dialled (destConn, remoteConn).
pub mod Calls
pub mod Relay
