-- ===== src/Loopback/Steps.antt =====
-- src/cmd/tun-loopback/main.go: every frame that is read keeps the session tables whole, and no frame panics.
use goxot.Base.{
  All, ℕ, ◌≡◌, length, refl, ap, Bool, List, [], ◌∷◌, Option, none, some, if◌then◌else◌, ◌==◌,
  arith, inl, inr, ◌⊎◌, ◌≤◌, ◌<◌,
}
use goxot.Base.Bits.{IsByte}
use goxot.X25.Packet.{get_packet_type, get_lci, get_gfi, restart_request, call_request}
use goxot.X25.Packet.Header.{remap_lci_total, get_lci_small}
use goxot.Loopback.{
  place_key, operational, LoopSession, Place, Relay, and_then, slot, link_of, handle_call_request,
  peer_of, remove_same, remove_confirmed, relay_packet, forward_found, forward_packet,
  handle_packet, handle_tun_read,
}
use goxot.Loopback.Tables.{Fits}
use goxot.Loopback.Clear.{handle_restart-Kept, handle_control-Kept}
use goxot.Loopback.Calls.{handle_call_request-Kept}
use goxot.Loopback.Keep.{
  get-Inv, Inv, Kept, some-Kept, step-Kept, remove-Kept, live-IsDead, write_peer-Kept,
  send_clear-Inv, if-Inv, if-Kept, by_link-Kept,
}

-- The LCI of a call that a kernel places.
unfoldable pub IsKernelCall : (start end : ℕ) → List ℕ → Type 0
IsKernelCall start end payload =
    get_packet_type payload ≡ call_request
    → ((get_lci payload < start) ⊎ (end < get_lci payload)) × (1 ≤ get_lci payload)

call_request-length :
    (payload : List ℕ) → get_packet_type payload ≡ call_request → 2 ≤ length payload
unfolding get_packet_type
call_request-length payload e = ground arith

module _ {start end count : ℕ} (small : end < 4096) where
  module _ (r : Relay) (p : Place) (payload : List ℕ) (x : Inv start end count r) (one : 1 ≤ start)
      (at : p.lci ≡ get_lci payload) (here : p.node < count) (low : p.lci < 4096) where
    long_enough : (s : LoopSession) → slot r p ≡ some s → 2 ≤ length payload
    unfolding get_lci
    long_enough s e = elim (x.tables.own_place p s e) [
      | inl w ↦ ground (arith, at, x.tables.kernel_pos p s e, ap (λ q. q.lci) w)
      | inr w ↦ ground (arith, at, one, x.tables.relay_lci p s e, ap (λ q. q.lci) w)
    ]

    remove_confirmed-Kept :
        (s : LoopSession) → slot r p ≡ some s → Kept start end count (remove_confirmed r p s)
    unfolding remove_confirmed remove_same and_then
    remove_confirmed-Kept s e =
        rw (get-Inv r p x here low, e)
          (if-Kept _ _ _ (λ _. remove-Kept r s (live-IsDead r p s x e) x) (λ _. some-Kept r x))

    peer_node : (s : LoopSession) → Fits count s → (peer_of s p).node < count
    unfolding peer_of
    peer_node s f = ground (arith, f.node_a, f.node_b)

    relay_packet-Kept :
        (s : LoopSession) (pkt_type : ℕ)
        → slot r p ≡ some s
        → Kept start end count (relay_packet r p s payload pkt_type)
    unfolding relay_packet
    relay_packet-Kept s pkt_type e =
        let m = remap_lci_total payload (peer_of s p).lci (long_enough s e) in
        rw (m.1, relay_packet)
          (step-Kept _ _ (if-Kept _ _ _ (λ _. remove_confirmed-Kept s e) (λ _. some-Kept r x))
            (λ r' x'. write_peer-Kept r' _ _ _ (peer_node s (x.tables.fits p s e)) x'))

    forward_found-Kept :
        (o : Option LoopSession) (pkt_type : ℕ)
        → slot r p ≡ o
        → Kept start end count (forward_found r p payload pkt_type o)
    unfolding forward_found
    forward_found-Kept none pkt_type e = some-Kept _ (if-Inv _ (send_clear-Inv r _ _ _ _ _ x) x)
    forward_found-Kept (some s) pkt_type e = relay_packet-Kept s pkt_type e

    forward_packet-Kept :
        (pkt_type : ℕ) → Kept start end count (forward_packet r p payload pkt_type)
    unfolding forward_packet and_then
    forward_packet-Kept pkt_type =
        rw (get-Inv r p x here low) (forward_found-Kept (slot r p) pkt_type refl)

  module _ (r : Relay) (node hdr : ℕ) (payload : List ℕ) (wrote : Bool) (one : 1 ≤ start)
      (here : node < count) (b : All IsByte payload) (k : IsKernelCall start end payload)
      (x : Inv start end count r) where
    handle_packet-Kept : Kept start end count (handle_packet r node payload wrote)
    unfolding handle_packet IsKernelCall
    handle_packet-Kept =
        let p : Place = record { node = node; lci = get_lci payload } in
        let call = handle_call_request r p (get_gfi payload) payload wrote in
        let other = forward_packet r p payload (get_packet_type payload) in
        let is_call = get_packet_type payload == call_request in
        if-Kept (get_packet_type payload == restart_request) _
          (elim (link_of r node) [ operational ↦ if is_call then call else other | _ ↦ some r ])
          (λ _. handle_restart-Kept r node payload x)
          (λ _. by_link-Kept (link_of r node) (some-Kept r x) (some-Kept r x) (
            if-Kept is_call call other
              (λ e.
                let c : get_packet_type payload ≡ call_request = ground (arith, e) in
                handle_call_request-Kept small r p (get_gfi payload) payload wrote x
                  (call_request-length payload c) (k c).0 (k c).1 here (get_lci_small payload b))
              (λ e.
                forward_packet-Kept r p payload x one refl here (get_lci_small payload b)
                  (get_packet_type payload))))

  -- In a relay whose nodes and session tables are sound, the reader of one of its nodes handles every
  -- frame without a panic and keeps them sound: no index into the nodes, the slots or the packet is
  -- out of range; both slots of every session hold it, its relay LCI is reserved and in the range, and
  -- its kernel LCI is not. The range is from 1 or above to 4095 at most, and the kernels place their
  -- calls on LCIs outside it and not on LCI 0.
  pub handle_tun_read-Inv :
      (r : Relay) (node hdr : ℕ) (payload : List ℕ) (wrote : Bool)
      → 1 ≤ start
      → node < count
      → All IsByte payload
      → IsKernelCall start end payload
      → Inv start end count r
      → (r' : Relay) × (handle_tun_read r node hdr payload wrote ≡ some r') × Inv start end count r'
  unfolding handle_tun_read
  handle_tun_read-Inv r node hdr [] wrote one here bytes k x =
      let m = handle_control-Kept r node hdr x in (m.result, m.runs, m.keeps)
  handle_tun_read-Inv r node hdr (b ∷ payload) wrote one here bytes k x =
      let m = handle_packet-Kept r node hdr (b ∷ payload) wrote one here bytes k x in
      (m.result, m.runs, m.keeps)
