-- ===== src/Bridge/Calls.antt =====
-- src/cmd/xot-server/main.go, handleIncomingXot, and src/cmd/xot-gateway/main.go, handleGatewayConn:
-- what a process does with each packet of a connection until a call is placed.
pub mod Placed
pub mod Routes
pub mod Injected
use goxot.Base.{
  ℕ, Bool, true, false, List, [], ◌∷◌, Option, none, some, Result, ok, err, ◌==◌, if◌then◌else◌,
}
use goxot.Base.Maps.{Map}
use goxot.X25.Packet.{
  X25Packet, Error, gfi_mod8, serialize, parse_x25, validate_size, get_base_type, call_request,
  cause_local_procedure_error, cause_out_of_order,
}
use goxot.X25.Create.{create_clear_request}
use goxot.X25.CallSetup.{CallFields, parse_call_request, inject_facilities}
use goxot.Config.Servers.{ServerConfig, get_server}
use goxot.Config.Manager.{ConfigManager, get_servers, get_destination}
use goxot.Xot.{XotError, too_long}
use goxot.Bridge.Relay.{diag_packet_too_long}

abbrev pub cause_number_busy : ℕ
cause_number_busy = 0x01

abbrev pub cause_invalid_facility : ℕ
cause_invalid_facility = 0x03

-- `ignored`: the next packet is read. `ended` and `refused`: the handler returns, in the second case
-- behind one packet. `placed`: the GFI and the LCI of the call, and what is sent to where it goes.
pub data Decision (D : Type 0) : Type 0 where
  ignored ended : Decision D
  refused : List ℕ → Decision D
  placed : D → ℕ → ℕ → List ℕ → Decision D

unfoldable pub refuse : {D : Type 0} → ℕ → ℕ → ℕ → ℕ → Decision D
refuse gfi lci cause diag = refused (serialize (create_clear_request gfi lci cause diag))

refuse_long : {D : Type 0} → Result Error X25Packet → Decision D
unfolding refuse
refuse_long (err e) = refuse gfi_mod8 0 cause_local_procedure_error diag_packet_too_long
refuse_long (ok pkt) = refuse pkt.gfi pkt.lci cause_local_procedure_error diag_packet_too_long

unfoldable pub read_failed : {D : Type 0} → XotError → Decision D
unfolding refuse_long
read_failed (too_long head) = refuse_long (parse_x25 head)
read_failed _ = ended

-- The tests before a call is looked at, which the two processes share. `route` goes on with the
-- call, and gets the bytes that were read.
module _ {D : Type 0} (route : List ℕ → X25Packet → CallFields → Decision D) where
  unfoldable pub screen_call : List ℕ → X25Packet → Result Error CallFields → Decision D
  unfolding refuse
  screen_call bytes pkt (err e) = refuse pkt.gfi pkt.lci cause_invalid_facility 0
  screen_call bytes pkt (ok f) = route bytes pkt f

  unfoldable pub screen_packet : List ℕ → X25Packet → Decision D
  unfolding refuse
  screen_packet bytes pkt = elim (validate_size pkt) [
    | some e ↦ refuse pkt.gfi pkt.lci cause_local_procedure_error diag_packet_too_long
    | none ↦
        if get_base_type pkt == call_request
        then screen_call bytes pkt (parse_call_request pkt)
        else ignored
  ]

  unfoldable pub screen : Result XotError (List ℕ) → Decision D
  screen (err e) = read_failed e
  screen (ok bytes) = elim (parse_x25 bytes) [ err e ↦ ignored | ok pkt ↦ screen_packet bytes pkt ]

  -- The handler's loop over what it reads, until it has an end. A connection of which nothing more
  -- comes leaves it waiting.
  unfoldable pub await : List (Result XotError (List ℕ)) → Decision D
  await [] = ignored
  await (r ∷ reads) = elim (screen r) [
    | ignored ↦ await reads
    | ended ↦ ended
    | refused packet ↦ refused packet
    | placed dest gfi lci bytes ↦ placed dest gfi lci bytes
  ]

-- The sockets of tun-gateway and xot-gateway.
pub data Peer : Type 0 where
  tun_peer gateway_peer : Peer

-- xot-server. `dial`: whether the dial of a socket succeeds.
module _ {Ip : Type 0} (resolve : List ℕ → ServerConfig → Option (List Ip)) (is_local : Ip → Bool)
    (cm : Option ConfigManager) (dial : Peer → Bool) where
  unfoldable pub connect_peer : Peer → List ℕ → X25Packet → Decision Peer
  unfolding refuse
  connect_peer peer bytes pkt =
      if dial peer
      then placed peer pkt.gfi pkt.lci bytes
      else refuse pkt.gfi pkt.lci cause_out_of_order 0

  unfoldable pub route_incoming : List ℕ → X25Packet → CallFields → Decision Peer
  unfolding refuse
  route_incoming bytes pkt f =
      let (srv, local) = get_server resolve is_local (get_servers cm) f.called true in
      if local then connect_peer tun_peer bytes pkt else elim srv [
        | some s ↦ connect_peer gateway_peer bytes pkt
        | none ↦ refuse pkt.gfi pkt.lci cause_number_busy 0
      ]

  unfoldable pub handle_incoming_xot : List (Result XotError (List ℕ)) → Decision Peer
  handle_incoming_xot = await route_incoming

-- xot-gateway. `dial`: whether the dial of an address succeeds; `range` is the order of a map.
module _ {Ip : Type 0} (resolve : List ℕ → ServerConfig → Option (List Ip)) (is_local : Ip → Bool)
    (cm : Option ConfigManager) (dial : ServerConfig → Ip → Bool)
    (range : Map ℕ (List ℕ) → Map ℕ (List ℕ)) where
  -- The first address that answers.
  unfoldable pub dial_first : ServerConfig → List Ip → Option Ip
  dial_first srv [] = none
  dial_first srv (ip ∷ ips) = let rest = dial_first srv ips in if dial srv ip then some ip else rest

  unfoldable pub injected : List ℕ → Result Error X25Packet → List ℕ
  injected bytes (err e) = bytes
  injected bytes (ok pkt) = serialize pkt

  -- What is sent on: the call with the facilities of its destination, where there are some and
  -- they can be injected.
  unfoldable pub call_bytes : Option (List (List ℕ × List ℕ)) → List ℕ → X25Packet → List ℕ
  unfolding injected
  call_bytes none bytes pkt = bytes
  call_bytes (some []) bytes pkt = bytes
  call_bytes (some (f ∷ facilities)) bytes pkt =
      injected bytes (inject_facilities range (f ∷ facilities) pkt)

  unfoldable pub connect_remote : ServerConfig → Option (List Ip) → List ℕ → X25Packet → Decision Ip
  unfolding refuse
  connect_remote srv none bytes pkt = refuse pkt.gfi pkt.lci cause_number_busy 0
  connect_remote srv (some ips) bytes pkt = elim (dial_first srv ips) [
    | none ↦ refuse pkt.gfi pkt.lci cause_out_of_order 0
    | some ip ↦ placed ip pkt.gfi pkt.lci bytes
  ]

  unfoldable pub route_outgoing : List ℕ → X25Packet → CallFields → Decision Ip
  unfolding refuse
  route_outgoing bytes pkt f =
      let (srv, local) = get_server resolve is_local (get_servers cm) f.called false in
      elim srv [
        | none ↦ refuse pkt.gfi pkt.lci cause_number_busy 0
        | some s ↦
            if local
            then refuse pkt.gfi pkt.lci cause_number_busy 0
            else connect_remote s (resolve f.called s)
                (call_bytes (get_destination cm f.called) bytes pkt) pkt
      ]

  unfoldable pub handle_gateway_conn : List (Result XotError (List ℕ)) → Decision Ip
  handle_gateway_conn = await route_outgoing
