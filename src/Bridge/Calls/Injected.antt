-- ===== src/Bridge/Calls/Injected.antt =====
-- src/cmd/xot-gateway/main.go: the calls that go to a remote server, with the facilities of their
-- destinations.
use goxot.Base.{
  ℕ, ◌≡◌, ◌≢◌, ◌<◌, refl, sym, ◌∙◌, ap, ◌++◌, ◌⊎◌, inl, inr, Bool-cases, arith, Bool, true, false,
  List, [], ◌∷◌, Option, none, some, Result, ok, if◌then◌else◌, All, length,
}
use mathlib.Core.Option.{or_else}
use goxot.Base.Bits.{IsByte}
use goxot.Base.Maps.{ℕ_key, Map, lookup}
use goxot.Base.Maps.Order.{Distinct, IsRange}
use goxot.X25.Packet.{X25Packet, serialize, cause_out_of_order}
use goxot.X25.Facilities.{parse_facilities}
use goxot.X25.Facilities.Valid.{IsSetting, settings, requested}
use goxot.X25.CallSetup.{CallFields, parse_call_request, new_facilities}
use goxot.X25.CallSetup.Inject.{inject_facilities_lem}
use goxot.Config.Servers.{ServerConfig, get_server}
use goxot.Config.Manager.{ConfigManager, get_servers, get_destination}
use goxot.Xot.{XotError}
use goxot.Bridge.Calls.{
  placed, refuse, cause_number_busy, dial_first, injected, call_bytes, connect_remote,
  route_outgoing, handle_gateway_conn,
}
use goxot.Bridge.Calls.Placed.{IsRead, Screened, await-placed}

module _ {Ip : Type 0} (resolve : List ℕ → ServerConfig → Option (List Ip)) (is_local : Ip → Bool)
    (cm : Option ConfigManager) (dial : ServerConfig → Ip → Bool)
    (range : Map ℕ (List ℕ) → Map ℕ (List ℕ)) where
  -- The address answers, and none of those before it does.
  unfoldable pub IsFirst : ServerConfig → List Ip → Ip → Type 0
  IsFirst srv ips ip =
      (before after : List Ip) × (ips ≡ before ++ ip ∷ after)
      × All (λ a. dial srv a ≡ false) before
      × (dial srv ip ≡ true)

  dial_first-IsFirst :
      (srv : ServerConfig) (ips : List Ip) (ip : Ip)
      → dial_first resolve is_local cm dial range srv ips ≡ some ip
      → IsFirst srv ips ip
  unfolding dial_first IsFirst
  dial_first-IsFirst srv [] ip e = cc
  dial_first-IsFirst srv (a ∷ ips) ip e = elim (Bool-cases (dial srv a)) [
    | inl t ↦ let same : a ≡ ip = ground (arith, e, t) in ([], ips, rw same refl, tt, rw (← same) t)
    | inr t ↦
        let (before, after, same, silent, answers) =
          dial_first-IsFirst srv ips ip (ground (arith, e, t)) in
        (a ∷ before, after, ap (λ l. a ∷ l) same, (t, silent), answers)
  ]

  -- Where a call goes, and as what.
  pub record Dialled (ip : Ip) (gfi lci : ℕ) (bytes out : List ℕ) (pkt : X25Packet) (f : CallFields)
      : Type 0 where
    pub srv : ServerConfig
    pub ips : List Ip
    pub server : get_server resolve is_local (get_servers cm) f.called false ≡ (some srv, false)
    pub resolved : resolve f.called srv ≡ some ips
    pub first : IsFirst srv ips ip
    pub sent :
        out ≡ call_bytes resolve is_local cm dial range (get_destination cm f.called) bytes pkt
    pub same_gfi : gfi ≡ pkt.gfi
    pub same_lci : lci ≡ pkt.lci

  route_outgoing-Dialled :
      (ip : Ip) (gfi lci : ℕ) (bytes out : List ℕ) (pkt : X25Packet) (f : CallFields)
      → route_outgoing resolve is_local cm dial range bytes pkt f ≡ placed ip gfi lci out
      → Dialled ip gfi lci bytes out pkt f
  unfolding route_outgoing connect_remote refuse
  route_outgoing-Dialled ip gfi lci bytes out pkt f h =
      let g = get_server resolve is_local (get_servers cm) f.called false in
      by_server g.0 g.1 refl h
    where
      sent_as : List ℕ
      sent_as = call_bytes resolve is_local cm dial range (get_destination cm f.called) bytes pkt

      by_dial :
          (srv : ServerConfig) (ips : List Ip) (o : Option Ip)
          → get_server resolve is_local (get_servers cm) f.called false ≡ (some srv, false)
          → resolve f.called srv ≡ some ips
          → dial_first resolve is_local cm dial range srv ips ≡ o
          → elim o [
            | none ↦ refuse pkt.gfi pkt.lci cause_out_of_order 0
            | some ip ↦
                placed ip pkt.gfi pkt.lci (
                  call_bytes resolve is_local cm dial range (get_destination cm f.called) bytes pkt)
          ]
            ≡ placed ip gfi lci out
          → Dialled ip gfi lci bytes out pkt f
      by_dial srv ips none s r d h = cc
      by_dial srv ips (some a) s r d h = record {
        srv = srv;
        ips = ips;
        server = s;
        resolved = r;
        first = dial_first-IsFirst srv ips ip (d ∙ cc);
        sent = cc;
        same_gfi = cc;
        same_lci = cc;
      }

      by_ips :
          (srv : ServerConfig) (o : Option (List Ip))
          → get_server resolve is_local (get_servers cm) f.called false ≡ (some srv, false)
          → resolve f.called srv ≡ o
          → connect_remote resolve is_local cm dial range srv o
              (call_bytes resolve is_local cm dial range (get_destination cm f.called) bytes pkt)
              pkt
            ≡ placed ip gfi lci out
          → Dialled ip gfi lci bytes out pkt f
      by_ips srv none s r h = cc
      by_ips srv (some ips) s r h =
          by_dial srv ips (dial_first resolve is_local cm dial range srv ips) s r refl h

      by_server :
          (o : Option ServerConfig) (local : Bool)
          → get_server resolve is_local (get_servers cm) f.called false ≡ (o, local)
          → elim o [
            | none ↦ refuse pkt.gfi pkt.lci cause_number_busy 0
            | some s ↦
                if local
                then refuse pkt.gfi pkt.lci cause_number_busy 0
                else connect_remote resolve is_local cm dial range s
                    (resolve f.called s)
                    (call_bytes resolve is_local cm dial range
                      (get_destination cm f.called)
                      bytes
                      pkt)
                    pkt
          ]
            ≡ placed ip gfi lci out
          → Dialled ip gfi lci bytes out pkt f
      by_server none local s h = cc
      by_server (some srv) true s h = cc
      by_server (some srv) false s h = by_ips srv (resolve f.called srv) s refl h

  sent_plain :
      (bytes out : List ℕ) (pkt : X25Packet) (o : Option (List (List ℕ × List ℕ)))
      → out ≡ call_bytes resolve is_local cm dial range o bytes pkt
      → (out ≡ bytes) ⊎ ((new : List (List ℕ × List ℕ)) × (o ≡ some new) × (new ≢ []))
  unfolding call_bytes
  sent_plain bytes out pkt none e = inl e
  sent_plain bytes out pkt (some []) e = inl e
  sent_plain bytes out pkt (some (x ∷ new)) e = inr (x ∷ new, refl, λ k. cc)

  -- A call that xot-gateway places was read from the connection and passed the tests; its server is
  -- the one that GetServer picks, not local; the address is one of the server's that answers, and none
  -- before it does; the call keeps its GFI and LCI; and where the called address has no facilities
  -- configured, the bytes that are sent are those that were read.
  pub handle_gateway_conn-Dialled :
      (reads : List (Result XotError (List ℕ))) (ip : Ip) (gfi lci : ℕ) (out : List ℕ)
      → handle_gateway_conn resolve is_local cm dial range reads ≡ placed ip gfi lci out
      → (bytes : List ℕ) × (pkt : X25Packet) × (f : CallFields) × IsRead (ok bytes) reads
        × Screened bytes pkt f
        × Dialled ip gfi lci bytes out pkt f
        × ((out ≡ bytes)
            ⊎ ((new : List (List ℕ × List ℕ)) × (get_destination cm f.called ≡ some new)
                × (new ≢ [])))
  unfolding handle_gateway_conn
  handle_gateway_conn-Dialled reads ip gfi lci out h =
      let (bytes, read, (pkt, f, passed, route)) =
        await-placed (route_outgoing resolve is_local cm dial range) ip gfi lci out reads h in
      let d = route_outgoing-Dialled ip gfi lci bytes out pkt f route in
      (
        bytes,
        pkt,
        f,
        read,
        passed,
        d,
        sent_plain bytes out pkt (get_destination cm f.called) d.sent,
      )

  -- When facilities are configured for the called address of a call, all of them valid, and the
  -- updated field stays below 256 bytes, what xot-gateway sends for the call is a call with the
  -- same GFI, LCI, addresses and user data, whose facilities are the configured ones and, for the
  -- codes that have none, those of the call.
  pub call_bytes_lem :
      (ip : Ip) (gfi lci : ℕ) (bytes out : List ℕ) (pkt : X25Packet) (f : CallFields)
      (new : List (List ℕ × List ℕ))
      → Dialled ip gfi lci bytes out pkt f
      → parse_call_request pkt ≡ ok f
      → get_destination cm f.called ≡ some new
      → new ≢ []
      → All IsByte pkt.payload
      → All IsSetting (settings new)
      → ((m : Map ℕ (List ℕ)) → Distinct m → IsRange m (range m))
      → length (new_facilities range new f.facilities) < 256
      → (q : X25Packet) × (out ≡ serialize q)
        × (q.gfi ≡ gfi)
        × (q.lci ≡ lci)
        × (parse_call_request q
            ≡ ok (record f { facilities = new_facilities range new f.facilities }))
        × ((code : ℕ)
            → lookup code (parse_facilities (new_facilities range new f.facilities))
              ≡ or_else
                  (requested code (settings new))
                  (lookup code (parse_facilities f.facilities)))
  unfolding call_bytes injected
  call_bytes_lem ip gfi lci bytes out pkt f [] d fields dest ne b s ordered fits = absurd (ne refl)
  call_bytes_lem ip gfi lci bytes out pkt f (x ∷ new) d fields dest ne b s ordered fits =
      let (q, e, g, l, _, parsed, found) =
        inject_facilities_lem range (x ∷ new) pkt f b fields s ordered fits in
      (
        q,
        d.sent ∙ rw (dest, e, call_bytes) refl,
        g ∙ sym d.same_gfi,
        l ∙ sym d.same_lci,
        parsed,
        found,
      )
