-- ===== src/Gateway/Short.antt =====
-- src/cmd/tun-gateway/main.go, handleServerConn: a packet without the two bytes of an LCI.
use goxot.Base.{ℕ, ◌<◌, ◌≡◌, refl, false, List, [], ◌∷◌, none, ◌==◌, length, arith, ok}
use goxot.Link.{LinkState, operational, down, connecting}
use goxot.X25.Packet.{get_gfi, get_lci, get_packet_type, remap_lci}
use goxot.Session.{Session, allocate_and_add_tun_session}
use goxot.Session.Steps.{Inv, allocate_and_add_tun_session-Allocated}
use goxot.Session.Keyed.{Keyed}
use goxot.Gateway.{Gateway, with_sm, get_tun_lci}
use goxot.Gateway.Server.{
  replace_old, is_clear, to_kernel, go_on, deliver_tun, server_call, server_data, server_packet,
  handle_server_conn,
}
use goxot.Gateway.Served.{Entry, Allocated-Entry}

short_fields :
    (packet : List ℕ)
    → length packet < 2
    → (get_packet_type packet ≡ 0) × ((lci : ℕ) → remap_lci packet lci ≡ none)
unfolding get_packet_type get_lci remap_lci
short_fields [] h = (refl, λ lci. refl)
short_fields (a ∷ []) h = (refl, λ lci. refl)
short_fields (a ∷ b ∷ rest) h = absurd (omega (arith, h))

to_kernel-none :
    (g : Gateway) (packet : List ℕ) (lci : ℕ)
    → remap_lci packet lci ≡ none
    → go_on (to_kernel g packet lci) ≡ none
unfolding to_kernel go_on
to_kernel-none g packet lci e = rw (e, to_kernel) refl

server_call-none :
    (g : Gateway) (conn : ℕ) (packet : List ℕ) (s : Session)
    → ((lci : ℕ) → remap_lci packet lci ≡ none)
    → (allocate_and_add_tun_session g.sm conn (get_gfi packet) (get_lci packet)).1 ≡ ok s
    → Entry
        (allocate_and_add_tun_session g.sm conn (get_gfi packet) (get_lci packet)).0
        conn
        (get_lci packet)
        s
    → server_call g conn packet ≡ none
unfolding server_call get_tun_lci deliver_tun with_sm
server_call-none g conn packet s panics made x =
    let other : (s.lci_a == 0) ≡ false = ground (arith, x.low) in
    rw (made, other, x.at_a, server_call, get_tun_lci, deliver_tun)
      (to_kernel-none _ packet _ (panics _))

server_data-none :
    (g : Gateway) (conn : ℕ) (packet : List ℕ) (link : LinkState)
    → link ≡ operational
    → g.shutting_down ≡ false
    → server_call g conn packet ≡ none
    → server_data g conn packet link ≡ none
unfolding server_data
server_data-none g conn packet operational l d e = ground (arith, d, e)
server_data-none g conn packet down l d e = cc
server_data-none g conn packet connecting l d e = cc

-- On an operational link that is not shutting down, in a gateway whose sessions are in order, a
-- packet of less than two bytes from a connection runs out of its bounds, as soon as the allocation
-- for its LCI, which then reads as 0, gives a session.
pub handle_server_conn-none :
    (g : Gateway) (conn : ℕ) (packet : List ℕ) (s : Session)
    → Inv g.sm
    → Keyed g.sm
    → g.link_state ≡ operational
    → g.shutting_down ≡ false
    → length packet < 2
    → (allocate_and_add_tun_session g.sm conn (get_gfi packet) (get_lci packet)).1 ≡ ok s
    → handle_server_conn g conn (ok packet) ≡ none
unfolding handle_server_conn server_packet replace_old is_clear
handle_server_conn-none g conn packet s v k up running short made =
    let (type, panics) = short_fields packet short in
    let x =
      Allocated-Entry g.sm conn (get_lci packet) _ v k
        (allocate_and_add_tun_session-Allocated g.sm conn (get_gfi packet) (get_lci packet) v) s
        made in
    rw (type, replace_old)
      (server_data-none g conn packet g.link_state up running
        (server_call-none g conn packet s panics made x))
