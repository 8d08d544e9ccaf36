-- ===== src/Gateway/Sound/Kernel.antt =====
-- src/cmd/tun-gateway/main.go: each frame of the kernel, however short, gives a state with sound
-- sessions.
use goxot.Base.{
  ℕ, ◌≤◌, ◌≢◌, refl, Bool, true, false, List, [], ◌∷◌, Option, ◌==◌, if◌then◌else◌, length, arith,
  Option-cases, inl, inr,
}
use goxot.Link.{LinkState, down, connecting, operational, header_connect, header_disconnect}
use goxot.X25.Packet.{
  get_lci, call_request, call_connected, clear_request, clear_confirm, parse_x25,
}
use goxot.X25.Packet.Header.{remap_lci_total}
use goxot.Config.Servers.{ServerConfig}
use goxot.Session.{p4, p5, Session, get_by_a_lci, get_all_sessions}
use goxot.Gateway.{Gateway, write_tun, close_all_sessions}
use goxot.Gateway.Server.{is_clear}
use goxot.Gateway.Kernel.{
  set_link, disconnected, handle_control, confirm_restart, handle_restart, drop_busy, called_of,
  spawn, session_clear, session_packet, end_frame, no_session, known_session, kernel_packet,
  intercepted, kernel_call, handle_tun_read,
}
use goxot.Gateway.Sound.{
  IsSound, write_tun-IsSound, send-IsSound, clear_tun-IsSound, if-IsSound, remove-IsSound,
  close_all_sessions-IsSound,
}
use goxot.Gateway.Sound.Readers.{Gives, Yields, done, set_state-IsSound}

set_link-IsSound : (g : Gateway) (state : LinkState) → IsSound g → IsSound (set_link g state)
unfolding set_link
set_link-IsSound g state v = record { keyed = v.keyed; next = v.next }

disconnected-IsSound : (g : Gateway) → IsSound g → IsSound (disconnected g)
unfolding disconnected
disconnected-IsSound g v = close_all_sessions-IsSound _ (set_link-IsSound g down v)

handle_control-IsSound : (g : Gateway) (hdr : ℕ) → IsSound g → IsSound (handle_control g hdr)
unfolding handle_control
handle_control-IsSound g hdr v =
    if-IsSound (hdr == header_connect) (connect g.link_state)
      (if-IsSound (hdr == header_disconnect) (disconnected-IsSound g v) v)
  where
    connect :
        (link : LinkState)
        → IsSound (elim link [
          | operational ↦ g
          | connecting ↦ write_tun g header_connect []
          | down ↦ set_link (write_tun g header_connect []) connecting
        ])
    connect operational = v
    connect connecting = write_tun-IsSound g _ _ v
    connect down = set_link-IsSound _ _ (write_tun-IsSound g _ _ v)

confirm_restart-IsSound :
    (g : Gateway) (payload : List ℕ) → IsSound g → IsSound (confirm_restart g payload)
unfolding confirm_restart
confirm_restart-IsSound g payload v = set_link-IsSound _ _ (write_tun-IsSound g _ _ v)

handle_restart-IsSound :
    (g : Gateway) (payload : List ℕ) → IsSound g → IsSound (handle_restart g payload)
unfolding handle_restart
handle_restart-IsSound g payload v = by_link g.link_state (get_all_sessions g.sm)
  where
    by_link :
        (link : LinkState) (sessions : List Session)
        → IsSound (elim link [
          | operational ↦ elim sessions [
            | [] ↦ g
            | s ∷ rest ↦ confirm_restart (close_all_sessions g) payload
          ]
          | _ ↦ confirm_restart g payload
        ])
    by_link operational [] = v
    by_link operational (s ∷ rest) =
        confirm_restart-IsSound _ payload (close_all_sessions-IsSound g v)
    by_link down sessions = confirm_restart-IsSound g payload v
    by_link connecting sessions = confirm_restart-IsSound g payload v

drop_busy-IsSound : (g : Gateway) (lci : ℕ) → IsSound g → IsSound (drop_busy g lci)
unfolding drop_busy
drop_busy-IsSound g lci v = elim (Option-cases (get_by_a_lci g.sm lci)) [
  | inl e ↦ rw (e, drop_busy) v
  | inr (s, e) ↦ rw (e, drop_busy) (remove-IsSound g s v)
]

session_packet-IsSound :
    (g : Gateway) (s : Session) (payload remapped : List ℕ) (pkt_type : ℕ)
    → IsSound g
    → IsSound (session_packet g s payload remapped pkt_type)
unfolding session_packet session_clear
session_packet-IsSound g s payload remapped pkt_type v =
    if-IsSound (pkt_type == call_connected)
      (send-IsSound _ s.conn_b remapped (set_state-IsSound g s p4 v))
      (if-IsSound (pkt_type == clear_request)
        (send-IsSound _ s.conn_b remapped
          (remove-IsSound _ s (write_tun-IsSound _ _ _ (set_state-IsSound g s p5 v))))
        (if-IsSound (pkt_type == clear_confirm)
          (send-IsSound _ s.conn_b remapped (remove-IsSound g s v))
          (send-IsSound g s.conn_b remapped v)))

end_frame-IsSound : (g : Gateway) (hdr : ℕ) → IsSound g → IsSound (end_frame g hdr)
unfolding end_frame
end_frame-IsSound g hdr v = if-IsSound (hdr == header_disconnect) (disconnected-IsSound g v) v

short-get_lci : (payload : List ℕ) → get_lci payload ≢ 0 → 2 ≤ length payload
unfolding get_lci
short-get_lci payload ne = ground arith

known_session-Yields :
    (g : Gateway) (s : Session) (hdr : ℕ) (payload : List ℕ) (pkt_type : ℕ)
    → 2 ≤ length payload
    → IsSound g
    → Yields (known_session g s hdr payload pkt_type)
unfolding known_session Gives
known_session-Yields g s hdr payload pkt_type h v =
    let (out, e) = remap_lci_total payload s.lci_b h in
    let w = session_packet-IsSound g s payload out pkt_type v in
    (_, rw (e, known_session) refl, if-IsSound (is_clear pkt_type) w (end_frame-IsSound _ hdr w))

-- A session stands under an LCI of at least 1 only, which takes two bytes.
pub kernel_packet-Yields :
    (g : Gateway) (hdr : ℕ) (payload : List ℕ) (pkt_type : ℕ)
    → IsSound g
    → Yields (kernel_packet g hdr payload pkt_type)
unfolding kernel_packet no_session
kernel_packet-Yields g hdr payload pkt_type v =
    elim (Option-cases (get_by_a_lci g.sm (get_lci payload))) [
      | inl e ↦
          rw (e, kernel_packet)
            (done (end_frame-IsSound _ hdr (if-IsSound _ (clear_tun-IsSound g _ _ _ _ v) v)))
      | inr (s, e) ↦
          let (k, entry) = v.keyed.at_a _ s e in
          rw (e, kernel_packet)
            (known_session-Yields g s hdr payload pkt_type
              (short-get_lci payload (λ z. ground (arith, entry.low, k, z))) v)
    ]

module _ {Ip : Type 0} (resolve : List ℕ → ServerConfig → Option (List Ip)) (is_local : Ip → Bool)
    (servers : List ServerConfig) where
  kernel_call-Yields :
      (g : Gateway) (hdr : ℕ) (payload : List ℕ)
      → IsSound g
      → Yields (kernel_call resolve is_local servers g hdr payload)
  unfolding kernel_call spawn
  kernel_call-Yields g hdr payload v =
      let w = drop_busy-IsSound g (get_lci payload) v in
      elim (Option-cases (intercepted resolve is_local servers (called_of (parse_x25 payload)))) [
        | inl e ↦ rw (e, kernel_call) (kernel_packet-Yields _ hdr payload call_request w)
        | inr (pkt, e) ↦ rw (e, kernel_call) (done (record { keyed = w.keyed; next = w.next }))
      ]

  if-Yields : (b : Bool) (o p : Option Gateway) → Yields o → Yields p → Yields (if b then o else p)
  if-Yields true o p v w = v
  if-Yields false o p v w = w

  -- A round for a frame of the kernel.
  pub handle_tun_read-Yields :
      (g : Gateway) (hdr : ℕ) (payload : List ℕ)
      → IsSound g
      → Yields (handle_tun_read resolve is_local servers g hdr payload)
  unfolding handle_tun_read
  handle_tun_read-Yields g hdr [] v = done (handle_control-IsSound g hdr v)
  handle_tun_read-Yields g hdr (b ∷ rest) v =
      if-Yields _ _ _ (done (handle_restart-IsSound g (b ∷ rest) v)) (
        if-Yields _ _ _ (kernel_call-Yields g hdr (b ∷ rest) v)
          (kernel_packet-Yields g hdr (b ∷ rest) _ v))
