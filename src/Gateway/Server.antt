-- ===== src/Gateway/Server.antt =====
-- src/cmd/tun-gateway/main.go, handleServerConn: the packets of a connection that xot-server opened.
use goxot.Base.{
  ℕ, Bool, true, false, ◌||◌, List, Option, none, some, Result, ok, err, ◌==◌, if◌then◌else◌,
}
use goxot.Link.{LinkState, operational, header_data}
use goxot.Session.{
  p5, Session, get_by_a_lci, get_by_b_conn_lci, remove_by_b_conn_lci, remove_session, set_state,
}
use goxot.X25.Packet.{
  get_gfi, get_lci, get_packet_type, remap_lci, call_request, clear_request, clear_confirm,
  cause_network_congestion, cause_local_procedure_error,
}
use goxot.Xot.{XotError, too_long}
use goxot.Gateway.{Gateway, write_tun, clear_conn, with_sm, get_tun_lci}

abbrev pub diag_packet_too_long : ℕ
diag_packet_too_long = 39

-- A packet that could not be read; the reader returns.
unfoldable pub read_failed : Gateway → ℕ → XotError → Gateway
read_failed g conn (too_long head) =
    clear_conn g conn (get_gfi head) (get_lci head) cause_local_procedure_error diag_packet_too_long
read_failed g conn _ = g

-- A new call on an LCI that has a session takes its place.
unfoldable pub replace_old : Gateway → ℕ → ℕ → ℕ → Gateway
replace_old g conn lci pkt_type =
    if pkt_type == call_request then with_sm g (remove_by_b_conn_lci g.sm conn lci) else g

unfoldable pub is_clear : ℕ → Bool
is_clear pkt_type = pkt_type == clear_request || pkt_type == clear_confirm

-- The rewritten packet goes to the kernel. `none`: an index is out of range.
unfoldable pub to_kernel : Gateway → List ℕ → ℕ → Option Gateway
to_kernel g packet lci = elim (remap_lci packet lci) [
  | none ↦ none
  | some remapped ↦ some (write_tun g header_data remapped)
]

unfoldable pub drop_confirmed : Session → ℕ → Gateway → Gateway
drop_confirmed s pkt_type g =
    if pkt_type == clear_confirm then with_sm g (remove_session g.sm s) else g

unfoldable pub clear_session : Gateway → Session → List ℕ → ℕ → Option Gateway
unfolding drop_confirmed
clear_session g s packet pkt_type =
    elim (to_kernel (with_sm g (set_state g.sm s p5)) packet s.lci_a) [
      | none ↦ none
      | some g' ↦ some (drop_confirmed s pkt_type g')
    ]

unfoldable pub server_clear : Gateway → ℕ → List ℕ → ℕ → Option Gateway
server_clear g conn packet pkt_type = elim (get_by_b_conn_lci g.sm conn (get_lci packet)) [
  | none ↦ some g
  | some s ↦ clear_session g s packet pkt_type
]

-- A round's result: the state, and whether the reader goes on.
unfoldable pub go_on : Option Gateway → Option (Gateway × Bool)
go_on none = none
go_on (some g) = some (g, true)

unfoldable pub deliver_tun : Gateway → ℕ → List ℕ → Option (Gateway × Bool)
unfolding go_on
deliver_tun g tun_lci packet = elim (get_by_a_lci g.sm tun_lci) [
  | none ↦ some (g, false)
  | some s ↦ go_on (to_kernel g packet tun_lci)
]

unfoldable pub server_call : Gateway → ℕ → List ℕ → Option (Gateway × Bool)
unfolding deliver_tun
server_call g conn packet =
    let (g', tun_lci) = get_tun_lci g conn (get_gfi packet) (get_lci packet) in
    if tun_lci == 0
    then some
        (clear_conn g' conn (get_gfi packet) (get_lci packet) cause_network_congestion 0, false)
    else deliver_tun g' tun_lci packet

unfoldable pub server_data : Gateway → ℕ → List ℕ → LinkState → Option (Gateway × Bool)
server_data g conn packet operational =
    if g.shutting_down then some (g, false) else server_call g conn packet
server_data g conn packet _ =
    some (clear_conn g conn (get_gfi packet) (get_lci packet) cause_network_congestion 0, false)

unfoldable pub server_packet : Gateway → ℕ → List ℕ → Option (Gateway × Bool)
unfolding server_data go_on
server_packet g conn packet =
    let pkt_type = get_packet_type packet in
    let g' = replace_old g conn (get_lci packet) pkt_type in
    if is_clear pkt_type
    then go_on (server_clear g' conn packet pkt_type)
    else server_data g' conn packet g'.link_state

-- One round of the reader.
unfoldable pub handle_server_conn : Gateway → ℕ → Result XotError (List ℕ) → Option (Gateway × Bool)
handle_server_conn g conn (err e) = some (read_failed g conn e, false)
handle_server_conn g conn (ok packet) = server_packet g conn packet
