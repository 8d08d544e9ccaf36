-- ===== src/Bridge/Calls/Routes.antt =====
-- src/cmd/xot-server/main.go, src/cmd/xot-gateway/main.go: where the two processes place a call.
use goxot.Base.{
  ℕ, ◌≡◌, ◌∙◌, Bool, true, false, List, Option, none, some, Result, ok, if◌then◌else◌, arith,
}
use goxot.Base.Maps.{ℕ_key}
use goxot.X25.Packet.{X25Packet, parse_x25, get_gfi, get_lci}
use goxot.X25.CallSetup.{CallFields}
use goxot.Config.Servers.{ServerConfig, get_server}
use goxot.Config.Manager.{ConfigManager, get_servers}
use goxot.Xot.{XotError}
use goxot.Bridge.Calls.{
  placed, refuse, Peer, tun_peer, gateway_peer, connect_peer, route_incoming, handle_incoming_xot,
  cause_number_busy,
}
use goxot.Bridge.Calls.Placed.{IsRead, Screened, await-placed}

parse_x25_head :
    (bytes : List ℕ) (pkt : X25Packet)
    → parse_x25 bytes ≡ ok pkt
    → (pkt.gfi ≡ get_gfi bytes) × (pkt.lci ≡ get_lci bytes)
unfolding parse_x25
parse_x25_head bytes pkt e = ground (arith, e)

module _ {Ip : Type 0} (resolve : List ℕ → ServerConfig → Option (List Ip)) (is_local : Ip → Bool)
    (cm : Option ConfigManager) where
  connect_peer-placed :
      (dial : Peer → Bool) (to peer : Peer) (gfi lci : ℕ) (bytes out : List ℕ) (pkt : X25Packet)
      → connect_peer resolve is_local cm dial to bytes pkt ≡ placed peer gfi lci out
      → (out ≡ bytes) × (gfi ≡ pkt.gfi) × (lci ≡ pkt.lci) × (peer ≡ to) × (dial peer ≡ true)
  unfolding connect_peer refuse
  connect_peer-placed dial to peer gfi lci bytes out pkt h = ground (arith, h)

  -- What a placed call is sent on as.
  abbrev Sent : (Peer → Bool) → Bool → Peer → ℕ → ℕ → List ℕ → List ℕ → X25Packet → Type 0
  Sent dial local peer gfi lci bytes out pkt =
      (out ≡ bytes)
      × (gfi ≡ pkt.gfi)
      × (lci ≡ pkt.lci)
      × (peer ≡ (if local then tun_peer else gateway_peer))
      × (dial peer ≡ true)

  route_incoming-placed :
      (dial : Peer → Bool) (peer : Peer) (gfi lci : ℕ) (bytes out : List ℕ) (pkt : X25Packet)
      (f : CallFields)
      → route_incoming resolve is_local cm dial bytes pkt f ≡ placed peer gfi lci out
      → Sent dial
          (get_server resolve is_local (get_servers cm) f.called true).1
          peer
          gfi
          lci
          bytes
          out
          pkt
  unfolding route_incoming refuse
  route_incoming-placed dial peer gfi lci bytes out pkt f h =
      let g = get_server resolve is_local (get_servers cm) f.called true in by_route g.0 g.1 h
    where
      by_route :
          (srv : Option ServerConfig) (local : Bool)
          → (if local then connect_peer resolve is_local cm dial tun_peer bytes pkt else elim srv [
            | some s ↦ connect_peer resolve is_local cm dial gateway_peer bytes pkt
            | none ↦ refuse pkt.gfi pkt.lci cause_number_busy 0
          ])
            ≡ placed peer gfi lci out
          → Sent dial local peer gfi lci bytes out pkt
      by_route srv true k = connect_peer-placed dial tun_peer peer gfi lci bytes out pkt k
      by_route (some s) false k = connect_peer-placed dial gateway_peer peer gfi lci bytes out pkt k
      by_route none false k = cc

  -- A call that xot-server places was read from the connection and passed the tests; it is sent on
  -- byte for byte, under its own GFI and LCI, to tun-gateway when its called address is local or has
  -- no server, and to xot-gateway when it has a server elsewhere; and the dial succeeded.
  pub handle_incoming_xot-placed :
      (dial : Peer → Bool) (reads : List (Result XotError (List ℕ))) (peer : Peer) (gfi lci : ℕ)
      (out : List ℕ)
      → handle_incoming_xot resolve is_local cm dial reads ≡ placed peer gfi lci out
      → (pkt : X25Packet) × (f : CallFields) × IsRead (ok out) reads
        × Screened out pkt f
        × (gfi ≡ get_gfi out)
        × (lci ≡ get_lci out)
        × (peer ≡ (
            if (get_server resolve is_local (get_servers cm) f.called true).1
            then tun_peer
            else gateway_peer))
        × (dial peer ≡ true)
  unfolding handle_incoming_xot route_incoming refuse
  handle_incoming_xot-placed dial reads peer gfi lci out h =
      let (bytes, read, (pkt, f, passed, route)) =
        await-placed (route_incoming resolve is_local cm dial) peer gfi lci out reads h in
      let (same, g, l, to, dialled) =
        route_incoming-placed dial peer gfi lci bytes out pkt f route in
      let (g', l') = parse_x25_head bytes pkt passed.parsed in
      (pkt, f, rw same read, rw same passed, rw same (g ∙ g'), rw same (l ∙ l'), to, dialled)
