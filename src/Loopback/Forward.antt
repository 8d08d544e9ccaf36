-- ===== src/Loopback/Forward.antt =====
-- src/cmd/tun-loopback/main.go, forwardPacket: where a packet of a session goes.
use goxot.Base.{
  ℕ, ◌≡◌, ◌≢◌, refl, ap, Bool, true, false, List, ◌∷◌, Option, some, if◌then◌else◌, ◌==◌, ◌&&◌,
  arith, All, inl, inr, ◌≤◌, ◌<◌, length, drop, Bool-cases,
}
use goxot.Base.Bits.{IsByte}
use goxot.X25.Packet.{get_lci, get_gfi, get_packet_type, clear_confirm}
use goxot.X25.Packet.Header.{remap_lci_total, remap_lci_fields}
use goxot.Loopback.{
  LoopSession, Place, place_a, place_b, Relay, and_then, has_node, in_range, slot, get, remove,
  take_out, write_frame, write_peer, peer_of, relay_packet, remove_same, remove_confirmed,
  forward_found, forward_packet, header_data, same_loop_session,
}
use goxot.Loopback.Keep.{Inv, in_range-Inv}

peer_a : (s : LoopSession) → peer_of s (place_a s) ≡ place_b s
unfolding peer_of
peer_a s = ground arith

peer_b : (s : LoopSession) → s.lci_a ≢ s.lci_b → peer_of s (place_b s) ≡ place_a s
unfolding peer_of
peer_b s h = ground arith

get-slot : (r : Relay) (p : Place) (s : LoopSession) → get r p ≡ some (some s) → slot r p ≡ some s
unfolding get
get-slot r p s e = ground (arith, e)

module _ {start end count : ℕ} {r : Relay} (x : Inv start end count r) where
  slot-get :
      (p : Place) (s : LoopSession)
      → p.node < count
      → p.lci < 4096
      → slot r p ≡ some s
      → get r p ≡ some (some s)
  unfolding get
  slot-get p s h k e = rw (in_range-Inv r p x h k, e) refl

  -- In whole tables the two ends of a session are each other's peers: both slots are in range and
  -- hold it, and a reply goes back to where the packet came from.
  pub peer_of_back :
      (p : Place) (s : LoopSession)
      → get r p ≡ some (some s)
      → (get r (peer_of s p) ≡ some (some s)) × (peer_of s (peer_of s p) ≡ p)
  peer_of_back p s g =
      let t = x.tables in
      let e = get-slot r p s g in
      let f = t.fits p s e in
      let apart : s.lci_a ≢ s.lci_b =
        λ h. ground (arith, h, t.relay_lci p s e, t.kernel_lci p s e) in
      elim (t.own_place p s e) [
        | inl w ↦
            rw (w, peer_a s)
              (slot-get (place_b s) s f.node_b f.small_b (t.at_b p s e), peer_b s apart)
        | inr w ↦
            rw (w, peer_b s apart)
              (slot-get (place_a s) s f.node_a f.small_a (t.at_a p s e), peer_a s)
      ]

module _ (r : Relay) (s : LoopSession) (a : in_range r (place_a s) ≡ true)
    (b : in_range r (place_b s) ≡ true) where
  -- The frames that were written stay, and no index is out of range.
  abbrev SameSent : Option Relay → Type 0
  SameSent o = (r' : Relay) × (o ≡ some r') × (r'.sent ≡ r.sent) × (r'.nodes ≡ r.nodes)

  remove-SameSent : SameSent (remove r s)
  unfolding remove take_out
  remove-SameSent = (take_out r s, rw (a, b) refl, refl, refl)

  same-SameSent : (c : Bool) → SameSent (if c then remove r s else some r)
  same-SameSent true = remove-SameSent
  same-SameSent false = (r, refl, refl, refl)

  confirmed-SameSent :
      (p : Place)
      → get r p ≡ some (some s)
      → (c : Bool) → SameSent (if c then remove_confirmed r p s else some r)
  unfolding remove_confirmed remove_same and_then
  confirmed-SameSent p e false = (r, refl, refl, refl)
  confirmed-SameSent p e true = rw e (same-SameSent (same_loop_session s s))

  peer-in_range : (p : Place) → in_range r (peer_of s p) ≡ true
  unfolding peer_of
  peer-in_range p = elim (Bool-cases (s.tun_a == p.node && s.lci_a == p.lci)) [
    | inl e ↦ rw e b
    | inr e ↦ rw e a
  ]

  peer_ok : (p : Place) → (has_node r (peer_of s p).node ≡ true) × ((peer_of s p).lci < 4096)
  peer_ok p = split (peer_of s p) (peer-in_range p)
    where
      split : (q : Place) → in_range r q ≡ true → (has_node r q.node ≡ true) × (q.lci < 4096)
      split q h = unfold in_range in ground (arith, h)

  -- A packet of two bytes at least, of a session both of whose ends are in range, goes to the other end
  -- of the session: one frame is written, to the peer's interface and with the peer's LCI, whose
  -- GFI, packet type and bytes behind the second are those of the packet.
  pub forward_packet_lem :
      (p : Place) (payload : List ℕ) (pkt_type : ℕ)
      → get r p ≡ some (some s)
      → All IsByte payload
      → 2 ≤ length payload
      → (r' : Relay) × (bytes : List ℕ) × (forward_packet r p payload pkt_type ≡ some r')
        × (r'.sent
            ≡ record { node = (peer_of s p).node; header = header_data; bytes = bytes } ∷ r.sent)
        × (get_lci bytes ≡ (peer_of s p).lci)
        × (get_gfi bytes ≡ get_gfi payload)
        × (get_packet_type bytes ≡ get_packet_type payload)
        × (drop 2 bytes ≡ drop 2 payload)
  unfolding forward_packet forward_found relay_packet and_then write_frame
  forward_packet_lem p payload pkt_type e bytes len =
      let (known, small) = peer_ok p in
      let m = remap_lci_total payload (peer_of s p).lci len in
      let f = remap_lci_fields payload m.0 (peer_of s p).lci bytes small m.1 in
      let (r', k, same, nodes) = confirmed-SameSent p e (pkt_type == clear_confirm) in
      (
        write_frame r' (peer_of s p).node header_data m.0,
        m.0,
        rw (e, m.1, relay_packet, k) (written r' m.0 nodes known),
        ap (λ q. record { node = (peer_of s p).node; header = header_data; bytes = m.0 } ∷ q) same,
        f.0,
        f.1,
        f.2,
        f.4,
      )
    where
      written :
          (r' : Relay) (packet : List ℕ)
          → r'.nodes ≡ r.nodes
          → has_node r (peer_of s p).node ≡ true
          → write_peer r' (peer_of s p).node header_data packet
            ≡ some (write_frame r' (peer_of s p).node header_data packet)
      written r' packet nodes known =
          let there : has_node r' (peer_of s p).node ≡ true = unfold has_node in rw nodes known in
          unfold write_peer in rw there refl
