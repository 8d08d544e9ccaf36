-- ===== src/Gateway/Kernel.antt =====
-- src/cmd/tun-gateway/main.go, handleTunRead: the frames that the kernel writes to the interface.
use goxot.Base.{
  ℕ, Bool, true, not, ◌&&◌, List, [], ◌∷◌, Option, none, some, Result, ok, err, ◌==◌, if◌then◌else◌,
  get_or, bit_and,
}
use goxot.Link.{
  LinkState, down, connecting, operational, header_data, header_connect, header_disconnect,
}
use goxot.Config.Servers.{ServerConfig, get_server}
use goxot.Session.{p4, p5, Session, get_by_a_lci, get_all_sessions, remove_session, set_state}
use goxot.X25.Packet.{
  X25Packet, Error, parse_x25, get_gfi, get_lci, get_packet_type, remap_lci, call_request,
  call_connected, clear_request, clear_confirm, restart_request, restart_confirm,
  cause_network_congestion,
}
use goxot.X25.CallSetup.{parse_call_request}
use goxot.Gateway.{Gateway, write_tun, send, clear_tun, with_sm, close_all_sessions}
use goxot.Gateway.Server.{is_clear}

unfoldable pub set_link : Gateway → LinkState → Gateway
set_link g state = record g { link_state = state }

unfoldable pub disconnected : Gateway → Gateway
unfolding set_link
disconnected g = close_all_sessions (set_link g down)

-- A frame without a packet.
unfoldable pub handle_control : Gateway → ℕ → Gateway
unfolding set_link disconnected
handle_control g hdr =
    if hdr == header_connect
    then elim g.link_state [
      | operational ↦ g
      | connecting ↦ write_tun g header_connect []
      | down ↦ set_link (write_tun g header_connect []) connecting
    ]
    else if hdr == header_disconnect
    then disconnected g
    else g

-- Both branches of the compare and swap leave the link operational.
unfoldable pub confirm_restart : Gateway → List ℕ → Gateway
unfolding set_link
confirm_restart g payload =
    set_link
      (write_tun g header_data (bit_and (get_or payload 0 0) 0xf0 ∷ 0 ∷ restart_confirm ∷ []))
      operational

-- A restart of an operational link with no session is a duplicate from startup.
unfoldable pub handle_restart : Gateway → List ℕ → Gateway
unfolding confirm_restart
handle_restart g payload = elim g.link_state [
  | operational ↦ elim (get_all_sessions g.sm) [
    | [] ↦ g
    | s ∷ sessions ↦ confirm_restart (close_all_sessions g) payload
  ]
  | _ ↦ confirm_restart g payload
]

-- A new call on an LCI that has a session takes its place.
unfoldable pub drop_busy : Gateway → ℕ → Gateway
drop_busy g lci = elim (get_by_a_lci g.sm lci) [
  | none ↦ g
  | some s ↦ with_sm g (remove_session g.sm s)
]

-- The called address, where the packet is a call that parses.
unfoldable pub called_of : Result Error X25Packet → Option (X25Packet × List ℕ)
called_of (err e) = none
called_of (ok pkt) = elim (parse_call_request pkt) [ err e ↦ none | ok f ↦ some (pkt, f.called) ]

unfoldable pub spawn : Gateway → X25Packet → Gateway
spawn g pkt = record g { spawned = pkt ∷ g.spawned }

unfoldable pub session_clear : Gateway → Session → List ℕ → List ℕ → Gateway
session_clear g s payload remapped =
    let g' =
      write_tun (with_sm g (set_state g.sm s p5)) header_data
        (get_or payload 0 0 ∷ get_or payload 1 0 ∷ clear_confirm ∷ []) in
    send (with_sm g' (remove_session g'.sm s)) s.conn_b remapped

unfoldable pub session_packet : Gateway → Session → List ℕ → List ℕ → ℕ → Gateway
unfolding session_clear
session_packet g s payload remapped pkt_type =
    if pkt_type == call_connected
    then send (with_sm g (set_state g.sm s p4)) s.conn_b remapped
    else if pkt_type == clear_request
    then session_clear g s payload remapped
    else if pkt_type == clear_confirm
    then send (with_sm g (remove_session g.sm s)) s.conn_b remapped
    else send g s.conn_b remapped

-- A frame with a packet that also disconnects; the two clears go on before that test.
unfoldable pub end_frame : Gateway → ℕ → Gateway
end_frame g hdr = if hdr == header_disconnect then disconnected g else g

unfoldable pub no_session : Gateway → ℕ → List ℕ → ℕ → Gateway
no_session g hdr payload pkt_type =
    if not (is_clear pkt_type) && not (get_lci payload == 0)
    then clear_tun g (get_gfi payload) (get_lci payload) cause_network_congestion 0
    else g

unfoldable pub known_session : Gateway → Session → ℕ → List ℕ → ℕ → Option Gateway
known_session g s hdr payload pkt_type = elim (remap_lci payload s.lci_b) [
  | none ↦ none
  | some remapped ↦ some (
      if is_clear pkt_type
      then session_packet g s payload remapped pkt_type
      else end_frame (session_packet g s payload remapped pkt_type) hdr)
]

-- `none`: an index is out of range.
unfoldable pub kernel_packet : Gateway → ℕ → List ℕ → ℕ → Option Gateway
unfolding no_session
kernel_packet g hdr payload pkt_type = elim (get_by_a_lci g.sm (get_lci payload)) [
  | none ↦ some (end_frame (no_session g hdr payload pkt_type) hdr)
  | some s ↦ known_session g s hdr payload pkt_type
]

module _ {Ip : Type 0} (resolve : List ℕ → ServerConfig → Option (List Ip)) (is_local : Ip → Bool)
    (servers : List ServerConfig) where
  -- The packet of a call that goes to a server elsewhere.
  unfoldable pub intercepted : Option (X25Packet × List ℕ) → Option X25Packet
  intercepted none = none
  intercepted (some (pkt, called)) =
      let (srv, local) = get_server resolve is_local servers called true in
      elim srv [ none ↦ none | some s ↦ if local then none else some pkt ]

  unfoldable pub kernel_call : Gateway → ℕ → List ℕ → Option Gateway
  kernel_call g hdr payload =
      let g' = drop_busy g (get_lci payload) in
      elim (intercepted (called_of (parse_x25 payload))) [
        | none ↦ kernel_packet g' hdr payload call_request
        | some pkt ↦ some (spawn g' pkt)
      ]

  -- One round of the reader.
  unfoldable pub handle_tun_read : Gateway → ℕ → List ℕ → Option Gateway
  handle_tun_read g hdr [] = some (handle_control g hdr)
  handle_tun_read g hdr (b ∷ rest) =
      let payload = b ∷ rest in
      if get_packet_type payload == restart_request
      then some (handle_restart g payload)
      else if get_packet_type payload == call_request
      then kernel_call g hdr payload
      else kernel_packet g hdr payload (get_packet_type payload)
