-- ===== src/Gateway/Restart.antt =====
-- src/cmd/tun-gateway/main.go: a restart of the link, and the calls behind it.
use goxot.Base.{
  ℕ, ◌≤◌, ◌≡◌, ◌≢◌, refl, ◌∙◌, Bool, true, false, List, [], ◌∷◌, Option, none, some, length, All,
  inl, inr, ◌⊎◌, ok,
}
use goxot.Base.Bits.{IsByte}
use goxot.Base.Maps.{ℕ_key, lookup}
use goxot.Link.{LinkState, down, connecting, operational, header_data}
use goxot.Config.Servers.{ServerConfig}
use goxot.X25.Packet.{get_packet_type, restart_request}
use goxot.Session.{Session, SessionManager, get_by_a_lci, get_all_sessions, remove_all_sessions}
use goxot.Session.Steps.{Inv, remove_all_sessions-Inv}
use goxot.Session.Keyed.{Keyed, remove_all_sessions-Keyed}
use goxot.Gateway.{Gateway, write_tun, with_sm, close_all_sessions}
use goxot.Gateway.Server.{is_clear, handle_server_conn}
use goxot.Gateway.Kernel.{set_link, confirm_restart, handle_restart, handle_tun_read}
use goxot.Gateway.Sound.{IsSound}
use goxot.Gateway.Served.{
  IsFull, Served, relayed, refused, stopped, Remapped, handle_server_conn-Served,
}
use goxot.Gateway.Closed.{clear_each-sm}

-- The sessions are what they were, or there are none.
record Restarted (g h : Gateway) : Type 0 where
  up : h.link_state ≡ operational
  running : h.shutting_down ≡ g.shutting_down
  sessions : (h.sm ≡ g.sm) ⊎ (h.sm ≡ (remove_all_sessions g.sm).0)

confirmed :
    (g h : Gateway) (payload : List ℕ)
    → h.shutting_down ≡ g.shutting_down
    → (h.sm ≡ g.sm) ⊎ (h.sm ≡ (remove_all_sessions g.sm).0)
    → Restarted g (confirm_restart h payload)
unfolding confirm_restart set_link write_tun
confirmed g h payload e s = record { up = refl; running = e; sessions = s }

close_all_sessions-sm :
    (g : Gateway)
    → ((close_all_sessions g).shutting_down ≡ g.shutting_down)
      × ((close_all_sessions g).sm ≡ (remove_all_sessions g.sm).0)
unfolding close_all_sessions remove_all_sessions with_sm
close_all_sessions-sm g =
    let (a, b, c) =
      clear_each-sm (with_sm g (remove_all_sessions g.sm).0) (remove_all_sessions g.sm).1 in
    (c, a)

handle_restart-Restarted : (g : Gateway) (payload : List ℕ) → Restarted g (handle_restart g payload)
unfolding handle_restart
handle_restart-Restarted g payload = by_link g.link_state (get_all_sessions g.sm) refl
  where
    by_link :
        (link : LinkState) (sessions : List Session)
        → g.link_state ≡ link
        → Restarted g (elim link [
          | operational ↦ elim sessions [
            | [] ↦ g
            | s ∷ rest ↦ confirm_restart (close_all_sessions g) payload
          ]
          | _ ↦ confirm_restart g payload
        ])
    by_link operational [] e = record { up = e; running = refl; sessions = inl refl }
    by_link operational (s ∷ rest) e =
        let (a, b) = close_all_sessions-sm g in confirmed g (close_all_sessions g) payload a (inr b)
    by_link down sessions e = confirmed g g payload refl (inl refl)
    by_link connecting sessions e = confirmed g g payload refl (inl refl)

-- What the sessions need for a call, and a free LCI.
record HasRoom (sm : SessionManager) (m : ℕ) : Type 0 where
  inv : Inv sm
  keyed : Keyed sm
  low : sm.tun_lci_start ≤ m
  high : m ≤ sm.tun_lci_end
  free : get_by_a_lci sm m ≡ none

Restarted-HasRoom : (g h : Gateway) (m : ℕ) → Restarted g h → HasRoom g.sm m → HasRoom h.sm m
Restarted-HasRoom g h m r v = by_sessions r.sessions
  where
    emptied : HasRoom (remove_all_sessions g.sm).0 m
    emptied = record {
      inv = remove_all_sessions-Inv g.sm v.inv;
      keyed = remove_all_sessions-Keyed g.sm v.keyed;
      low = unfold remove_all_sessions in v.low;
      high = unfold remove_all_sessions in v.high;
      free = unfold remove_all_sessions get_by_a_lci lookup in refl;
    }

    by_sessions : (h.sm ≡ g.sm) ⊎ (h.sm ≡ (remove_all_sessions g.sm).0) → HasRoom h.sm m
    by_sessions (inl e) = rw e v
    by_sessions (inr e) = rw e emptied

HasRoom-full : (sm : SessionManager) (m : ℕ) → HasRoom sm m → IsFull sm → ⊥
unfolding IsFull
HasRoom-full sm m v full = let (s, e) = full m v.low v.high in cc (e, v.free)

module _ {Ip : Type 0} (resolve : List ℕ → ServerConfig → Option (List Ip)) (is_local : Ip → Bool)
    (servers : List ServerConfig) where
  restarts :
      (g : Gateway) (hdr b : ℕ) (rest : List ℕ)
      → get_packet_type (b ∷ rest) ≡ restart_request
      → handle_tun_read resolve is_local servers g hdr (b ∷ rest)
        ≡ some (handle_restart g (b ∷ rest))
  unfolding handle_tun_read
  restarts g hdr b rest e = rw e refl

  -- In a gateway whose session indexes are sound, from whatever state of the link, when a restart
  -- request comes from the kernel, before a shutdown and while an LCI of the range has no session, the
  -- next packet gets through if it is from a connection that is not nil, has two bytes at least and
  -- clears no call: its round goes on, and its frame to the kernel is the packet on a TUN LCI.
  pub restart_serves :
      (g : Gateway) (hdr b : ℕ) (rest : List ℕ) (conn : ℕ) (packet : List ℕ) (m : ℕ)
      → IsSound g
      → Inv g.sm
      → g.shutting_down ≡ false
      → g.sm.tun_lci_start ≤ m
      → m ≤ g.sm.tun_lci_end
      → get_by_a_lci g.sm m ≡ none
      → get_packet_type (b ∷ rest) ≡ restart_request
      → conn ≢ 0
      → 2 ≤ length packet
      → All IsByte packet
      → is_clear (get_packet_type packet) ≡ false
      → (g' g'' : Gateway) × (handle_tun_read resolve is_local servers g hdr (b ∷ rest) ≡ some g')
        × (handle_server_conn g' conn (ok packet) ≡ some (g'', true))
        × ((lci : ℕ) × (out : List ℕ) × (g''.frames
              ≡ record { control = header_data; payload = out } ∷ g'.frames)
            × Remapped lci packet out)
  restart_serves g hdr b rest conn packet m sound v running low high free type ne long bytes plain =
      let h = handle_restart g (b ∷ rest) in
      let r = handle_restart-Restarted g (b ∷ rest) in
      let room =
        Restarted-HasRoom g h m r
          (record { inv = v; keyed = sound.keyed; low = low; high = high; free = free }) in
      let (o, e, served) =
        handle_server_conn-Served h conn packet room.inv room.keyed ne long bytes plain in
      by_outcome h r room o e served refl
    where
      by_outcome :
          (h : Gateway)
          → Restarted g h
          → HasRoom h.sm m
          → (o : Gateway × Bool) → handle_server_conn h conn (ok packet) ≡ some o
          → Served h conn packet o
          → h ≡ handle_restart g (b ∷ rest)
          → (g' g'' : Gateway) × (handle_tun_read resolve is_local servers g hdr (b ∷ rest)
              ≡ some g')
            × (handle_server_conn g' conn (ok packet) ≡ some (g'', true))
            × ((lci : ℕ) × (out : List ℕ) × (g''.frames
                  ≡ record { control = header_data; payload = out } ∷ g'.frames)
                × Remapped lci packet out)
      by_outcome h r room _ e (relayed k s out at keys remapped frames messages up) same =
          (h, k, restarts g hdr b rest type ∙ rw same refl, e, (s.lci_a, out, frames, remapped))
      by_outcome h r room _ e (refused k frames messages (inl why)) same = absurd (why r.up)
      by_outcome h r room _ e (refused k frames messages (inr full)) same =
          absurd (HasRoom-full h.sm m room full)
      by_outcome h r room _ e (stopped k shut frames messages) same = cc (shut, r.running, running)
