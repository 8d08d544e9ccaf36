-- ===== src/Gateway/Answer.antt =====
-- src/cmd/tun-gateway/main.go: a frame of the kernel on the LCI of a session, and the way of a packet
-- from a connection to the kernel and of the answer back.
use goxot.Base.{
  ℕ, ◌≤◌, ◌<◌, ◌≡◌, ◌≢◌, refl, ◌∙◌, subst, Bool, true, false, List, [], ◌∷◌, Option, some, ◌==◌,
  if◌then◌else◌, length, arith, All, ok,
}
use goxot.Base.Bits.{IsByte}
use goxot.Base.Maps.{ℕ_key}
use goxot.Link.{header_data}
use goxot.Config.Servers.{ServerConfig}
use goxot.X25.Packet.{
  get_lci, get_packet_type, call_request, call_connected, clear_request, clear_confirm,
  restart_request,
}
use goxot.X25.Packet.Header.{get_lci_small, remap_lci_total, remap_lci_fields}
use goxot.Session.{p4, Session, get_by_a_lci, remove_session, set_state}
use goxot.Session.Steps.{Inv}
use goxot.Session.Keyed.{Keyed}
use goxot.Gateway.{Gateway, write_tun, send, with_sm}
use goxot.Gateway.Server.{is_clear, handle_server_conn}
use goxot.Gateway.Kernel.{
  session_clear, session_packet, end_frame, known_session, kernel_packet, handle_tun_read,
}
use goxot.Gateway.Sound.{IsSound}
use goxot.Gateway.Sound.Readers.{Gives, handle_server_conn-Goes}
use goxot.Gateway.Served.{Remapped, Served, relayed, refused, stopped, handle_server_conn-Served}

send_lem :
    (g : Gateway) (conn : ℕ) (packet : List ℕ)
    → conn ≢ 0
    → (send g conn packet).messages ≡ record { conn = conn; packet = packet } ∷ g.messages
unfolding send
send_lem g conn packet ne =
    let other : (conn == 0) ≡ false = ground (arith, ne) in rw (other, send) refl

-- Whatever the type of the packet, it goes to the connection of the session once.
session_packet_lem :
    (g : Gateway) (s : Session) (payload out : List ℕ) (pkt_type : ℕ)
    → s.conn_b ≢ 0
    → (session_packet g s payload out pkt_type).messages
      ≡ record { conn = s.conn_b; packet = out } ∷ g.messages
unfolding session_packet session_clear with_sm write_tun
session_packet_lem g s payload out pkt_type ne =
    by_type (pkt_type == call_connected) (pkt_type == clear_request) (pkt_type == clear_confirm)
  where
    sent :
        (h : Gateway)
        → h.messages ≡ g.messages
        → (send h s.conn_b out).messages ≡ record { conn = s.conn_b; packet = out } ∷ g.messages
    sent h e = send_lem h s.conn_b out ne ∙ rw e refl

    by_type :
        (a b c : Bool)
        → (if a
            then send (with_sm g (set_state g.sm s p4)) s.conn_b out
            else if b
            then session_clear g s payload out
            else if c
            then send (with_sm g (remove_session g.sm s)) s.conn_b out
            else send g s.conn_b out).messages
          ≡ record { conn = s.conn_b; packet = out } ∷ g.messages
    by_type true b c = sent (with_sm g (set_state g.sm s p4)) refl
    by_type false true c = sent _ refl
    by_type false false true = sent (with_sm g (remove_session g.sm s)) refl
    by_type false false false = sent g refl

long_enough : (packet : List ℕ) → 1 ≤ get_lci packet → 2 ≤ length packet
unfolding get_lci
long_enough packet h = ground (arith, h)

module _ {Ip : Type 0} (resolve : List ℕ → ServerConfig → Option (List Ip)) (is_local : Ip → Bool)
    (servers : List ServerConfig) where
  -- A data frame of the kernel on the LCI of a session, neither a call nor a restart, goes to the
  -- session's connection as one packet with the LCI that the session has there; its GFI, type and
  -- the bytes behind the LCI are unchanged.
  pub handle_tun_read-Remapped :
      (g : Gateway) (s : Session) (payload : List ℕ)
      → Keyed g.sm
      → get_by_a_lci g.sm (get_lci payload) ≡ some s
      → s.lci_b < 4096
      → All IsByte payload
      → get_packet_type payload ≢ call_request
      → get_packet_type payload ≢ restart_request
      → (g' : Gateway) × (out : List ℕ) × (handle_tun_read resolve is_local servers g header_data
            payload
          ≡ some g')
        × (g'.messages ≡ record { conn = s.conn_b; packet = out } ∷ g.messages)
        × Remapped s.lci_b payload out
  unfolding handle_tun_read kernel_packet known_session end_frame
  handle_tun_read-Remapped g s [] k at small bytes no_call no_restart =
      let (key, entry) = k.at_a _ s at in
      absurd (omega (arith, entry.low, long_enough [] (omega (arith, key, entry.low))))
  handle_tun_read-Remapped g s (b ∷ rest) k at small bytes no_call no_restart =
      let payload = b ∷ rest in
      let (key, entry) = k.at_a _ s at in
      let (out, e) =
        remap_lci_total payload s.lci_b (long_enough payload (omega (arith, key, entry.low))) in
      let (lci, gfi, type, _, tail, bytes') = remap_lci_fields payload out s.lci_b bytes small e in
      let not_call : (get_packet_type payload == call_request) ≡ false = ground (arith, no_call) in
      let not_restart : (get_packet_type payload == restart_request) ≡ false =
        ground (arith, no_restart) in
      (
        session_packet g s payload out (get_packet_type payload),
        out,
        rw (not_call, not_restart, at, e, kernel_packet, known_session)
            (either (is_clear (get_packet_type payload)) _),
        session_packet_lem g s payload out (get_packet_type payload) entry.conn,
        record {
          lci_set = lci;
          same_gfi = gfi;
          same_type = type;
          same_rest = tail;
          bytes = bytes';
        },
      )
    where
      either : (b : Bool) (h : Gateway) → some (if b then h else h) ≡ some h
      either true h = refl
      either false h = refl

  -- In a gateway whose sessions are in order, a packet of a connection that clears no call and
  -- behind which the reader goes on went to the kernel as the newest frame. What the kernel answers
  -- on the LCI of that frame, a call or a restart apart, goes to the same connection as its newest
  -- packet, on the LCI of the packet, with the answer's GFI, type and the bytes behind the LCI.
  pub answer-Remapped :
      (g g' : Gateway) (conn : ℕ) (packet out answer : List ℕ)
      → Inv g.sm
      → IsSound g
      → conn ≢ 0
      → 2 ≤ length packet
      → All IsByte packet
      → is_clear (get_packet_type packet) ≡ false
      → handle_server_conn g conn (ok packet) ≡ some (g', true)
      → g'.frames ≡ record { control = header_data; payload = out } ∷ g.frames
      → All IsByte answer
      → get_lci answer ≡ get_lci out
      → get_packet_type answer ≢ call_request
      → get_packet_type answer ≢ restart_request
      → (g'' : Gateway) × (back : List ℕ) × (handle_tun_read resolve is_local servers g' header_data
            answer
          ≡ some g'')
        × (g''.messages ≡ record { conn = conn; packet = back } ∷ g'.messages)
        × Remapped (get_lci packet) answer back
  unfolding Gives
  answer-Remapped g g' conn packet out answer v sound ne long bytes plain served written bytes'
        on_lci no_call no_restart =
      let (r, e, outcome) =
        handle_server_conn-Served g conn packet v sound.keyed ne long bytes plain in
      by_outcome r outcome (ground (arith, e, served))
    where
      k' : Keyed g'.sm
      k' =
          let (r, e, w) = handle_server_conn-Goes g conn packet ne long sound in
          let same : r ≡ (g', true) = ground (arith, e, served) in
          let w' : IsSound r.0 = w in (subst (λ x. IsSound x.0) same w').keyed

      by_outcome :
          (r : Gateway × Bool)
          → Served g conn packet r
          → r ≡ (g', true)
          → (g'' : Gateway) × (back : List ℕ) × (handle_tun_read resolve is_local servers g'
                header_data answer
              ≡ some g'')
            × (g''.messages ≡ record { conn = conn; packet = back } ∷ g'.messages)
            × Remapped (get_lci packet) answer back
      by_outcome _ (relayed h s sent at keys remapped frames messages link) e =
          let same : h ≡ g' = ground (arith, e) in
          let here : get_by_a_lci g'.sm s.lci_a ≡ some s = rw (← same) at in
          let there : g'.frames ≡ record { control = header_data; payload = sent } ∷ g.frames =
            rw (← same) frames in
          let one : sent ≡ out = cc (there, written) in
          rw (← keys.0, ← keys.1)
            (handle_tun_read-Remapped g' s answer k' (rw (on_lci, ← one, remapped.lci_set) here)
              (rw keys.1 (get_lci_small packet bytes)) bytes' no_call no_restart)
      by_outcome _ (refused h frames messages why) e = ground (arith, e)
      by_outcome _ (stopped h down frames messages) e = ground (arith, e)
