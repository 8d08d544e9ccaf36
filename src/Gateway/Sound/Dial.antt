-- ===== src/Gateway/Sound/Dial.antt =====
-- src/cmd/tun-gateway/main.go: forwardToGateway and each round of its reader keep the sessions sound.
use goxot.Base.{
  ℕ, ◌≤◌, ◌≡◌, ◌≢◌, refl, Bool, true, false, List, Option, none, some, ◌==◌, length, Option-cases,
  inl, inr, Result, ok, err,
}
use goxot.Base.Maps.{ℕ_key}
use goxot.X25.Packet.{X25Packet, get_lci, get_packet_type, call_connected, clear_confirm}
use goxot.Xot.{XotError}
use goxot.Session.{
  p2, p4, p5, CallState, Session, SessionManager, SessionError, get_by_a_lci, get_by_b_conn_lci,
  add_session,
}
use goxot.Session.Keyed.{Keyed, add_session-Keyed}
use goxot.Gateway.{Gateway, open_conn}
use goxot.Gateway.Server.{is_clear}
use goxot.Gateway.Dial.{
  outgoing, with_object, close_conn, connect_session, forward_to_gateway, gateway_clear,
  gateway_packet, handle_gateway_read,
}
use goxot.Gateway.Sound.{
  IsSound, with_sm-IsSound, send-IsSound, clear_tun-IsSound, if-IsSound, remove-IsSound,
  open_conn-IsSound,
}
use goxot.Gateway.Sound.Readers.{
  Gives, Yields, Goes, go_on-Goes, stops, if-Goes, set_state-IsSound, to_kernel-Yields,
  read_failed-IsSound,
}

close_conn-IsSound : (g : Gateway) (conn : ℕ) → IsSound g → IsSound (close_conn g conn)
unfolding close_conn
close_conn-IsSound g conn v = record { keyed = v.keyed; next = v.next }

with_object-Keyed :
    (sm : SessionManager) (state : CallState) → Keyed sm → Keyed (with_object sm state)
unfolding with_object get_by_a_lci get_by_b_conn_lci
with_object-Keyed sm state v = record { range = v.range; at_a = v.at_a; at_b = v.at_b }

connect_session-IsSound :
    (g : Gateway) (conn : ℕ) (pkt : X25Packet) (wrote : Bool) (s : Session)
    (r : Result SessionError SessionManager)
    → s.conn_b ≢ 0
    → add_session g.sm s ≡ r
    → IsSound g
    → IsSound (connect_session g conn pkt wrote r)
unfolding connect_session
connect_session-IsSound g conn pkt wrote s (err x) ne e v =
    close_conn-IsSound _ conn (close_conn-IsSound g conn v)
connect_session-IsSound g conn pkt wrote s (ok sm) ne e v =
    let w = with_sm-IsSound g sm (add_session-Keyed g.sm sm s ne e v.keyed) v in
    if-IsSound wrote (send-IsSound _ conn _ w) (close_conn-IsSound _ conn w)

-- forwardToGateway
pub forward_to_gateway-IsSound :
    (g : Gateway) (pkt : X25Packet) (dialled wrote : Bool)
    → IsSound g
    → IsSound (forward_to_gateway g pkt dialled wrote)
unfolding forward_to_gateway outgoing
forward_to_gateway-IsSound g pkt dialled wrote v =
    let w =
      with_sm-IsSound (open_conn g) _ (with_object-Keyed g.sm p2 v.keyed) (open_conn-IsSound g v) in
    if-IsSound g.shutting_down v (
      if-IsSound dialled
        (connect_session-IsSound _ g.next_conn pkt wrote (outgoing g.sm pkt g.next_conn) _ v.next
          refl w)
        (clear_tun-IsSound g _ _ _ _ v))

gateway_clear-Goes :
    (g : Gateway) (s : Session) (pkt_type : ℕ) (o : Option Gateway)
    → Yields o
    → Goes (gateway_clear g s pkt_type o)
unfolding gateway_clear Gives
gateway_clear-Goes g s pkt_type none (g', e, v) = cc
gateway_clear-Goes g s pkt_type (some h) (g', e, v) =
    let same : h ≡ g' = cc in
    let w : IsSound h = rw same v in
    if-Goes (pkt_type == clear_confirm) _ _ (stops false (remove-IsSound h s w))
      (stops true (set_state-IsSound h s p5 w))

-- A round for a connection that forwardToGateway dialled, with a packet of at least two bytes.
pub handle_gateway_read-Goes :
    (g : Gateway) (conn : ℕ) (packet : List ℕ)
    → 2 ≤ length packet
    → IsSound g
    → Goes (handle_gateway_read g conn (ok packet))
unfolding handle_gateway_read gateway_packet
handle_gateway_read-Goes g conn packet h v =
    elim (Option-cases (get_by_b_conn_lci g.sm conn (get_lci packet))) [
      | inl e ↦ rw (e, handle_gateway_read) (stops true v)
      | inr (s, e) ↦ rw (e, handle_gateway_read) (known s)
    ]
  where
    known : (s : Session) → Goes (gateway_packet g s packet (get_packet_type packet))
    known s =
        if-Goes (is_clear (get_packet_type packet)) _ _
          (gateway_clear-Goes g s (get_packet_type packet) _
            (to_kernel-Yields g packet s.lci_a h v))
          (go_on-Goes _ (
            to_kernel-Yields _ packet s.lci_a h (
              if-IsSound (get_packet_type packet == call_connected) (set_state-IsSound g s p4 v)
                v)))

-- A round whose read failed.
pub failed_read-Goes :
    (g : Gateway) (conn : ℕ) (e : XotError) → IsSound g → Goes (handle_gateway_read g conn (err e))
unfolding handle_gateway_read
failed_read-Goes g conn e v = stops false (read_failed-IsSound g conn e v)
