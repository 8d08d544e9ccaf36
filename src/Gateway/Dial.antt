-- ===== src/Gateway/Dial.antt =====
-- src/cmd/tun-gateway/main.go, forwardToGateway and handleGatewayRead: the calls that go out through
-- xot-gateway.
use goxot.Base.{
  ℕ, suc, Bool, true, false, List, ◌∷◌, Option, none, some, Result, ok, err, ◌==◌, if◌then◌else◌,
}
use goxot.Base.Maps.{ℕ_key, insert}
use goxot.Session.{
  CallState, p2, p4, p5, Session, SessionManager, SessionError, get_by_b_conn_lci, add_session,
  remove_session, set_state,
}
use goxot.X25.Packet.{
  X25Packet, serialize, get_lci, get_packet_type, call_connected, clear_confirm,
  cause_network_congestion,
}
use goxot.Xot.{XotError}
use goxot.Gateway.{Gateway, send, clear_tun, with_sm, open_conn}
use goxot.Gateway.Server.{is_clear, read_failed, to_kernel, go_on}

-- The session object of a call to xot-gateway, in state p2.
unfoldable pub outgoing : SessionManager → X25Packet → ℕ → Session
outgoing sm pkt conn = record {
  address = sm.allocated;
  gfi = pkt.gfi;
  lci_a = pkt.lci;
  conn_a = 0;
  lci_b = pkt.lci;
  conn_b = conn;
}

unfoldable pub with_object : SessionManager → CallState → SessionManager
with_object sm state = record sm {
  states = insert sm.allocated state sm.states;
  allocated = suc sm.allocated;
}

unfoldable pub close_conn : Gateway → ℕ → Gateway
close_conn g conn = record g { closed = conn ∷ g.closed }

-- A session that AddSession refuses: the connection is closed, and the write on it fails.
unfoldable pub connect_session :
    Gateway → ℕ → X25Packet → Bool → Result SessionError SessionManager → Gateway
connect_session g conn pkt wrote (err e) = close_conn (close_conn g conn) conn
connect_session g conn pkt wrote (ok sm) =
    if wrote then send (with_sm g sm) conn (serialize pkt) else close_conn (with_sm g sm) conn

-- `dialled` and `wrote`: whether the dial and the write of the call succeed.
unfoldable pub forward_to_gateway : Gateway → X25Packet → Bool → Bool → Gateway
unfolding outgoing with_object close_conn connect_session
forward_to_gateway g pkt dialled wrote =
    if g.shutting_down
    then g
    else if dialled
    then (let s = outgoing g.sm pkt g.next_conn in
        let g' = with_sm (open_conn g) (with_object g.sm p2) in
        connect_session g' g.next_conn pkt wrote (add_session g'.sm s))
    else clear_tun g pkt.gfi pkt.lci cause_network_congestion 0

unfoldable pub gateway_clear : Gateway → Session → ℕ → Option Gateway → Option (Gateway × Bool)
gateway_clear g s pkt_type none = none
gateway_clear g s pkt_type (some g') =
    if pkt_type == clear_confirm
    then some (with_sm g' (remove_session g'.sm s), false)
    else some (with_sm g' (set_state g'.sm s p5), true)

unfoldable pub gateway_packet : Gateway → Session → List ℕ → ℕ → Option (Gateway × Bool)
unfolding gateway_clear go_on
gateway_packet g s packet pkt_type =
    if is_clear pkt_type
    then gateway_clear g s pkt_type (to_kernel g packet s.lci_a)
    else go_on (
        to_kernel (if pkt_type == call_connected then with_sm g (set_state g.sm s p4) else g) packet
          s.lci_a)

-- One round of the reader, and whether it goes on.
unfoldable pub handle_gateway_read :
    Gateway → ℕ → Result XotError (List ℕ) → Option (Gateway × Bool)
handle_gateway_read g conn (err e) = some (read_failed g conn e, false)
handle_gateway_read g conn (ok packet) = elim (get_by_b_conn_lci g.sm conn (get_lci packet)) [
  | none ↦ some (g, true)
  | some s ↦ gateway_packet g s packet (get_packet_type packet)
]
