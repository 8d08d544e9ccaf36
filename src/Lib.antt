-- ===== src/Lib.antt =====
-- goxot: the core of an X.25 over TCP (XOT) gateway, modelled and proved.
--
-- The program carries X.25 calls between Linux TUN interfaces and XOT (RFC 1613) servers. Its
-- packages share src/: x25.go reads and writes packets, xot.go frames them on TCP or unixpacket
-- connections, session.go keeps the calls of tun-gateway under their channel numbers (LCIs), and
-- config.go loads the configuration and picks a server for an address. The processes under
-- src/cmd/ relay packets: each reads a packet, finds the call by its LCI, writes the LCI of the
-- other side into the header and passes the packet on.
--
-- Parts and files
--   Base          lists, tests, bytes, maps and hexadecimal text, shared by the other files
--   X25           src/x25.go: Packet (ParseX25, Serialize, the field getters, and the LCI rewrite
--                 of the relays), Address (EncodeBCD and the digit loops), Facilities and
--                 CallSetup (ParseCallRequest, InjectFacilities), Create (CreateData and the other
--                 constructors), Names (TypeName, GetPacketTypeName)
--   Lci           the round-robin scan of AllocateAndAddTunSession (src/session.go) and
--                 allocRelayLCI (src/cmd/tun-loopback/main.go)
--   Session       src/session.go: SessionManager, its indexes and its operations, and every
--                 history of them
--   Prefix        the longest prefix match of GetServer (src/config.go) and findNode
--                 (src/cmd/tun-loopback/main.go)
--   Config        src/config.go: Reload, its defaults and checks, the getters, GetServer; Addresses is
--                 src/addr.go (ParseAddrSpec, DialAddr)
--   Xot, Tun      src/xot.go and src/tun/tun.go: the two framings
--   Loopback      src/cmd/tun-loopback/main.go: the relay between TUN interfaces; Tables has the
--                 session tables, Keep, Clear, Calls and Steps every handler, Forward the data path
--   Link          the link states and the control bytes of the kernel interface
--   Gateway       src/cmd/tun-gateway/main.go: Server (handleServerConn), Kernel (handleTunRead) and
--                 Dial (forwardToGateway, handleGatewayRead) on the session manager; Sound has what
--                 every handler keeps and their interleavings, Served and Answer the way of a packet
--                 and back, Closed the end of a connection and of the link, Restart a restart of the
--                 link and the traffic after it, Routes the kernel routes (SyncRoutes), Short a packet without
--                 an LCI
--   Bridge        src/cmd/xot-server/main.go and src/cmd/xot-gateway/main.go: Calls (which call is
--                 placed, and where) and Relay (the threads that carry it, until it ends)
--   Dns           src/dns.go: ResolveXotDestination; Fresh has every history of its cache
--   Tests         runs at concrete inputs
--
-- Numbers are naturals. A byte or a uint16 keeps its wrap-around where the code can reach it, in
-- the length bytes, the LCI arithmetic and the framing lengths. An index out of range, which panics
-- in Go, is `none`. A Go map is a list of entries; where the order of iteration matters it is a
-- parameter. A mutex makes an operation one step.
--
-- Bounds and fuel: the facilities loop runs on as many rounds as the field has bytes, and more
-- change nothing (Facilities/Valid); the LCI scan runs once round the range; all other loops follow
-- their lists.
--
-- Calls and processes: xot-server gets a call from the network and gives it to tun-gateway, when the
-- address is local, or to xot-gateway; tun-gateway gives the kernel's calls for other servers to
-- xot-gateway, which dials the server. In Gateway a step is one round of a handler; in Go the steps of
-- two rounds can mix, between the calls of the session manager. In Bridge a step is one round of a
-- thread of the relay. Both are proved for every sequence of such steps.
--
-- Not modelled: watchConfig of tun-gateway; the listeners and signal handlers of
-- the processes beyond what they do to the state; sockets, ioctls, counters,
-- logging and the HTTP pages. The network, the resolver,
-- the regular expressions, the clock, the file system and the JSON decoder
-- are arguments of the definitions that use them.
pub mod Base
pub mod Bridge
pub mod Config
pub mod Dns
pub mod Gateway
pub mod Lci
pub mod Link
pub mod Loopback
pub mod Prefix
pub mod Session
pub mod Tests
pub mod Tun
pub mod X25
pub mod Xot
