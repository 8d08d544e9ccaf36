-- ===== src/Gateway/Served.antt =====
-- src/cmd/tun-gateway/main.go: what handleServerConn does with a packet that clears no call, and
-- where the kernel's answer goes.
use goxot.Base.{
  ℕ, ◌≤◌, ◌<◌, ◌≡◌, ◌≢◌, refl, sym, ◌∙◌, subst, Bool, true, false, List, ◌∷◌, Option, some, ◌==◌,
  if◌then◌else◌, length, drop, arith, All, Bool-cases, Option-cases, inl, inr, ◌⊎◌, Result, ok, err,
}
use goxot.Base.Bits.{IsByte}
use goxot.Base.Maps.{ℕ_key}
use goxot.Link.{LinkState, down, connecting, operational, header_data}
use goxot.X25.Packet.{
  serialize, get_gfi, get_lci, get_packet_type, call_request, cause_network_congestion,
}
use goxot.X25.Packet.Header.{remap_lci_total, remap_lci_fields}
use goxot.X25.Create.{create_clear_request}
use goxot.Session.{
  Session, SessionManager, SessionError, get_by_a_lci, get_by_b_conn_lci,
  allocate_and_add_tun_session, remove_by_b_conn_lci,
}
use goxot.Session.Steps.{
  Inv, Allocated, existing, made, exhausted, allocate_and_add_tun_session-Allocated,
  remove_by_b_conn_lci-Inv,
}
use goxot.Session.Invariant.{Removed}
use goxot.Session.Views.{unless-some}
use goxot.Session.Operations.{remove_by_b_conn_lci-Removed}
use goxot.Session.Keyed.{Keyed, remove_by_b_conn_lci-Keyed}
use goxot.Gateway.{Gateway, write_tun, clear_conn, send, with_sm, get_tun_lci}
use goxot.Gateway.Server.{
  replace_old, is_clear, to_kernel, go_on, deliver_tun, server_call, server_data, server_packet,
  handle_server_conn,
}

-- `out` is `packet` with the LCI `lci`.
pub record Remapped (lci : ℕ) (packet out : List ℕ) : Type 0 where
  pub lci_set : get_lci out ≡ lci
  pub same_gfi : get_gfi out ≡ get_gfi packet
  pub same_type : get_packet_type out ≡ get_packet_type packet
  pub same_rest : drop 2 out ≡ drop 2 packet
  pub bytes : All IsByte out

-- The CLEAR that answers a packet.
abbrev pub refusal : List ℕ → List ℕ
refusal packet =
    serialize (create_clear_request (get_gfi packet) (get_lci packet) cause_network_congestion 0)

-- Each LCI of the range has a session.
unfoldable pub IsFull : SessionManager → Type 0
IsFull sm =
    (m : ℕ)
    → sm.tun_lci_start ≤ m
    → m ≤ sm.tun_lci_end
    → (s : Session) × (get_by_a_lci sm m ≡ some s)

-- What a round does with a packet of connection `conn`, in the state `before`: one frame
-- goes to the kernel, on the LCI of a session between that LCI and the packet's; else the reader
-- returns, behind one CLEAR, since the link is not operational or no LCI is left, or, on a shutdown,
-- without a word.
pub data Served (before : Gateway) (conn : ℕ) (packet : List ℕ) : Gateway × Bool → Type 0 where
  relayed :
      (g : Gateway) (s : Session) (out : List ℕ)
      → get_by_a_lci g.sm s.lci_a ≡ some s
      → (s.conn_b ≡ conn) × (s.lci_b ≡ get_lci packet)
      → Remapped s.lci_a packet out
      → g.frames ≡ record { control = header_data; payload = out } ∷ before.frames
      → g.messages ≡ before.messages
      → (before.link_state ≡ operational) × (before.shutting_down ≡ false)
      → Served before conn packet (g, true)
  refused :
      (g : Gateway)
      → g.frames ≡ before.frames
      → g.messages ≡ record { conn = conn; packet = refusal packet } ∷ before.messages
      → (before.link_state ≢ operational) ⊎ IsFull before.sm
      → Served before conn packet (g, false)
  stopped :
      (g : Gateway)
      → before.shutting_down ≡ true
      → g.frames ≡ before.frames
      → g.messages ≡ before.messages
      → Served before conn packet (g, false)

abbrev Outcome : Gateway → ℕ → List ℕ → Option (Gateway × Bool) → Type 0
Outcome g conn packet o = (r : Gateway × Bool) × (o ≡ some r) × Served g conn packet r

-- The outcome of a round that goes on with the sessions of `sm`.
module _ (g : Gateway) (sm : SessionManager) (conn : ℕ) (packet : List ℕ) (ne : conn ≢ 0) where
  clear_conn-refused :
      (g.link_state ≢ operational) ⊎ IsFull g.sm
      → Served g conn packet (
        clear_conn (with_sm g sm) conn (get_gfi packet) (get_lci packet) cause_network_congestion 0,
        false,
      )
  unfolding clear_conn send with_sm
  clear_conn-refused why =
      let other : (conn == 0) ≡ false = ground (arith, ne) in
      rw (other, send) (refused _ refl refl why)

  deliver_tun-Served :
      (s : Session)
      → get_by_a_lci sm s.lci_a ≡ some s
      → (s.conn_b ≡ conn) × (s.lci_b ≡ get_lci packet)
      → s.lci_a < 4096
      → 2 ≤ length packet
      → All IsByte packet
      → (g.link_state ≡ operational) × (g.shutting_down ≡ false)
      → Outcome g conn packet (deliver_tun (with_sm g sm) s.lci_a packet)
  unfolding deliver_tun to_kernel go_on write_tun with_sm
  deliver_tun-Served s at keys small long bytes up =
      let (out, e) = remap_lci_total packet s.lci_a long in
      let (lci, gfi, type, _, rest, bytes') = remap_lci_fields packet out s.lci_a bytes small e in
      (
        (write_tun (with_sm g sm) header_data out, true),
        rw (at, e, deliver_tun, to_kernel) refl,
        relayed _ s out at keys
            (record {
              lci_set = lci;
              same_gfi = gfi;
              same_type = type;
              same_rest = rest;
              bytes = bytes';
            })
            refl refl up,
      )

-- The session that an allocation returns.
pub record Entry (sm : SessionManager) (conn lci : ℕ) (s : Session) : Type 0 where
  pub at_a : get_by_a_lci sm s.lci_a ≡ some s
  pub keys : (s.conn_b ≡ conn) × (s.lci_b ≡ lci)
  pub low : 1 ≤ s.lci_a
  pub high : s.lci_a ≤ 4095

pub Allocated-Entry :
    (sm : SessionManager) (conn lci : ℕ) (o : SessionManager × Result SessionError Session)
    → Inv sm
    → Keyed sm
    → Allocated sm conn lci o
    → (s : Session) → o.1 ≡ ok s
    → Entry o.0 conn lci s
Allocated-Entry sm conn lci _ v k (existing t here) s e =
    let same : t ≡ s = ground (arith, e) in
    let (c, l, entry) = k.at_b conn lci t here in
    rw (← same) (record {
      at_a = v.indexed.b_to_a conn lci t here;
      keys = (c, l);
      low = entry.low;
      high = entry.high;
    })
Allocated-Entry sm conn lci _ v k (made t sm' b a bounds keys added range) s e =
    let same : t ≡ s = ground (arith, e) in
    rw (← same) (record {
      at_a = added.at_a t.lci_a ∙ ground arith;
      keys = keys;
      low = omega (arith, v.range.low, bounds.0);
      high = omega (arith, v.range.high, bounds.1);
    })
Allocated-Entry sm conn lci _ v k (exhausted b all) s e = cc

Allocated-IsFull :
    (sm : SessionManager) (conn lci : ℕ) (o : SessionManager × Result SessionError Session)
    → Allocated sm conn lci o
    → (e : SessionError) → o.1 ≡ err e
    → IsFull sm
unfolding IsFull
Allocated-IsFull sm conn lci _ (existing t here) x e = cc
Allocated-IsFull sm conn lci _ (made t sm' b a bounds keys added range) x e = cc
Allocated-IsFull sm conn lci _ (exhausted b all) x e = all

module _ (g : Gateway) (conn : ℕ) (packet : List ℕ) (ne : conn ≢ 0) (long : 2 ≤ length packet)
    (bytes : All IsByte packet) where
  server_call-Served :
      Inv g.sm
      → Keyed g.sm
      → (g.link_state ≡ operational) × (g.shutting_down ≡ false)
      → Outcome g conn packet (server_call g conn packet)
  unfolding server_call get_tun_lci with_sm
  server_call-Served v k up =
      let o = allocate_and_add_tun_session g.sm conn (get_gfi packet) (get_lci packet) in
      let a =
        allocate_and_add_tun_session-Allocated g.sm conn (get_gfi packet) (get_lci packet) v in
      by_result o.1 refl (Allocated-Entry g.sm conn (get_lci packet) o v k a)
        (Allocated-IsFull g.sm conn (get_lci packet) o a)
    where
      by_result :
          (r : Result SessionError Session)
          → (allocate_and_add_tun_session g.sm conn (get_gfi packet) (get_lci packet)).1 ≡ r
          → ((s : Session)
              → (allocate_and_add_tun_session g.sm conn (get_gfi packet) (get_lci packet)).1 ≡ ok s
              → Entry
                  (allocate_and_add_tun_session g.sm conn (get_gfi packet) (get_lci packet)).0
                  conn
                  (get_lci packet)
                  s)
          → ((x : SessionError)
              → (allocate_and_add_tun_session g.sm conn (get_gfi packet) (get_lci packet)).1 ≡ err x
              → IsFull g.sm)
          → Outcome g conn packet (server_call g conn packet)
      by_result (err x) e h full =
          let sm = (allocate_and_add_tun_session g.sm conn (get_gfi packet) (get_lci packet)).0 in
          rw (e, server_call, get_tun_lci)
            (_, refl, clear_conn-refused g sm conn packet ne (inr (full x e)))
      by_result (ok s) e h full =
          let sm = (allocate_and_add_tun_session g.sm conn (get_gfi packet) (get_lci packet)).0 in
          let x = h s e in
          let other : (s.lci_a == 0) ≡ false = ground (arith, x.low) in
          rw (e, other, server_call, get_tun_lci)
            (deliver_tun-Served g sm conn packet ne s x.at_a x.keys (omega (arith, x.high)) long
              bytes up)

  server_data-Served :
      Inv g.sm
      → Keyed g.sm
      → (link : LinkState) → g.link_state ≡ link
      → Outcome g conn packet (server_data g conn packet link)
  unfolding server_data with_sm
  server_data-Served v k down l =
      (_, refl, clear_conn-refused g g.sm conn packet ne (inl (λ e. cc (l, e))))
  server_data-Served v k connecting l =
      (_, refl, clear_conn-refused g g.sm conn packet ne (inl (λ e. cc (l, e))))
  server_data-Served v k operational l = by_flag g.shutting_down refl
    where
      by_flag :
          (b : Bool)
          → g.shutting_down ≡ b
          → Outcome g conn packet (if b then some (g, false) else server_call g conn packet)
      by_flag true e = ((g, false), refl, stopped g e refl refl)
      by_flag false e = server_call-Served v k (l, e)

Removed-IsFull :
    (sm sm' : SessionManager) (s : Session)
    → Removed s sm sm'
    → sm'.tun_lci_start ≡ sm.tun_lci_start
    → sm'.tun_lci_end ≡ sm.tun_lci_end
    → IsFull sm'
    → IsFull sm
unfolding IsFull
Removed-IsFull sm sm' s r start end full m low high =
    let (t, e) = full m (rw start low) (rw end high) in
    (t, (unless-some s t (get_by_a_lci sm m) (sym (r.at_a m) ∙ e)).0)

remove_by_b-IsFull :
    (sm : SessionManager) (conn lci : ℕ)
    → Inv sm
    → IsFull (remove_by_b_conn_lci sm conn lci)
    → IsFull sm
unfolding IsFull remove_by_b_conn_lci
remove_by_b-IsFull sm conn lci v full = elim (Option-cases (get_by_b_conn_lci sm conn lci)) [
  | inl e ↦
      let same : remove_by_b_conn_lci sm conn lci ≡ sm = rw (e, remove_by_b_conn_lci) refl in
      subst IsFull same full
  | inr (s, e) ↦
      Removed-IsFull sm (remove_by_b_conn_lci sm conn lci) s
        (remove_by_b_conn_lci-Removed sm conn lci s v.indexed e) (rw (e, remove_by_b_conn_lci) refl)
        (rw (e, remove_by_b_conn_lci) refl) full
]

replaced-Served :
    (g : Gateway) (sm : SessionManager) (conn : ℕ) (packet : List ℕ) (r : Gateway × Bool)
    → (IsFull sm → IsFull g.sm)
    → Served (with_sm g sm) conn packet r
    → Served g conn packet r
unfolding with_sm
replaced-Served g sm conn packet _ f (relayed h s out at keys re frames messages up) =
    relayed h s out at keys re frames messages up
replaced-Served g sm conn packet _ f (refused h frames messages (inl why)) =
    refused h frames messages (inl why)
replaced-Served g sm conn packet _ f (refused h frames messages (inr why)) =
    refused h frames messages (inr (f why))
replaced-Served g sm conn packet _ f (stopped h shut frames messages) =
    stopped h shut frames messages

-- In a gateway whose sessions are in order, a packet of at least two bytes that clears no call, read
-- from a connection that is not nil, has one of three outcomes. It goes to the kernel as one frame,
-- with its GFI, type and the bytes behind the LCI unchanged, on the LCI of a session between that
-- LCI and the packet's own LCI of the connection, on an operational link and before a shutdown, and
-- the reader goes on; or it is answered by one CLEAR of network congestion with its GFI and LCI, and
-- the reader returns, where the link is not operational or every LCI of the range has a session; or,
-- on a shutdown, the reader returns and nothing is written.
pub handle_server_conn-Served :
    (g : Gateway) (conn : ℕ) (packet : List ℕ)
    → Inv g.sm
    → Keyed g.sm
    → conn ≢ 0
    → 2 ≤ length packet
    → All IsByte packet
    → is_clear (get_packet_type packet) ≡ false
    → (r : Gateway × Bool) × (handle_server_conn g conn (ok packet) ≡ some r)
      × Served g conn packet r
unfolding handle_server_conn server_packet replace_old with_sm
handle_server_conn-Served g conn packet v k ne long bytes plain =
    elim (Bool-cases (get_packet_type packet == call_request)) [
      | inl e ↦
          rw (e, plain, server_packet, replace_old)
            (let (r, e', served) =
                server_data-Served (with_sm g (remove_by_b_conn_lci g.sm conn (get_lci packet)))
                  conn packet ne long bytes (remove_by_b_conn_lci-Inv g.sm conn (get_lci packet) v)
                  (remove_by_b_conn_lci-Keyed g.sm conn (get_lci packet) k) g.link_state refl in
              (
                r,
                e',
                replaced-Served g (remove_by_b_conn_lci g.sm conn (get_lci packet)) conn packet r
                    (remove_by_b-IsFull g.sm conn (get_lci packet) v) served,
              ))
      | inr e ↦
          rw (e, plain, server_packet, replace_old)
            (server_data-Served g conn packet ne long bytes v k g.link_state refl)
    ]
