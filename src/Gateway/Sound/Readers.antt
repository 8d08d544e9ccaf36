-- ===== src/Gateway/Sound/Readers.antt =====
-- src/cmd/tun-gateway/main.go: each round of the three readers gives a state with sound sessions.
use goxot.Base.{
  ℕ, ◌≤◌, ◌≡◌, ◌≢◌, refl, Bool, true, false, List, Option, none, some, ◌==◌, if◌then◌else◌, length,
  Option-cases, inl, inr, ok,
}
use goxot.Link.{LinkState, down, connecting, operational, header_data}
use goxot.X25.Packet.{get_gfi, get_lci, get_packet_type, call_request, clear_confirm}
use goxot.X25.Packet.Header.{remap_lci_total}
use goxot.Xot.{
  XotError, too_long, no_connection, end_of_input, bad_version, wrong_length, small_buffer,
}
use goxot.Session.{p5, Session, get_by_a_lci, get_by_b_conn_lci, set_state}
use goxot.Session.Keyed.{set_state-Keyed, remove_by_b_conn_lci-Keyed}
use goxot.Gateway.{Gateway, write_tun, with_sm}
use goxot.Gateway.Server.{
  read_failed, replace_old, is_clear, to_kernel, drop_confirmed, clear_session, server_clear, go_on,
  deliver_tun, server_call, server_data, server_packet, handle_server_conn,
}
use goxot.Gateway.Sound.{
  IsSound, with_sm-IsSound, write_tun-IsSound, clear_conn-IsSound, if-IsSound, remove-IsSound,
  get_tun_lci-IsSound,
}

-- The result is a value that satisfies `P`.
unfoldable pub Gives {ℓ κ} : {A : Type ℓ} → (A → Type κ) → Option A → Type (ℓ ⊔ κ)
Gives {A = A} P o = (a : A) × (o ≡ some a) × P a

abbrev pub Yields : Option Gateway → Type 0
Yields = Gives IsSound

-- A round's state, whether or not the reader goes on.
abbrev pub Goes : Option (Gateway × Bool) → Type 0
Goes = Gives (λ r. IsSound r.0)

pub go_on-Goes : (o : Option Gateway) → Yields o → Goes (go_on o)
unfolding go_on Gives
go_on-Goes o (g, e, v) = ((g, true), rw e refl, v)

pub done : {g : Gateway} → IsSound g → Yields (some g)
unfolding Gives
done {g} v = (g, refl, v)

pub stops : {g : Gateway} (b : Bool) → IsSound g → Goes (some (g, b))
unfolding Gives
stops {g} b v = ((g, b), refl, v)

pub set_state-IsSound :
    (g : Gateway) (s : Session) (state : _)
    → IsSound g
    → IsSound (with_sm g (set_state g.sm s state))
set_state-IsSound g s state v = with_sm-IsSound g _ (set_state-Keyed g.sm s state v.keyed) v

pub to_kernel-Yields :
    (g : Gateway) (packet : List ℕ) (lci : ℕ)
    → 2 ≤ length packet
    → IsSound g
    → Yields (to_kernel g packet lci)
unfolding to_kernel Gives
to_kernel-Yields g packet lci h v =
    let (out, e) = remap_lci_total packet lci h in
    (write_tun g header_data out, rw (e, to_kernel) refl, write_tun-IsSound g _ _ v)

pub read_failed-IsSound :
    (g : Gateway) (conn : ℕ) (e : XotError) → IsSound g → IsSound (read_failed g conn e)
unfolding read_failed
read_failed-IsSound g conn (too_long head) v = clear_conn-IsSound g conn _ _ _ _ v
read_failed-IsSound g conn no_connection v = v
read_failed-IsSound g conn end_of_input v = v
read_failed-IsSound g conn (bad_version n) v = v
read_failed-IsSound g conn (wrong_length n m) v = v
read_failed-IsSound g conn (small_buffer n m) v = v

replace_old-IsSound :
    (g : Gateway) (conn lci pkt_type : ℕ) → IsSound g → IsSound (replace_old g conn lci pkt_type)
unfolding replace_old
replace_old-IsSound g conn lci pkt_type v =
    if-IsSound (pkt_type == call_request)
      (with_sm-IsSound g _ (remove_by_b_conn_lci-Keyed g.sm conn lci v.keyed) v) v

drop_confirmed-Yields :
    (s : Session) (pkt_type : ℕ) (o : Option Gateway)
    → Yields o
    → Yields (elim o [ none ↦ none | some g ↦ some (drop_confirmed s pkt_type g) ])
unfolding drop_confirmed Gives
drop_confirmed-Yields s pkt_type o (g, e, v) = (
  drop_confirmed s pkt_type g,
  rw e refl,
  if-IsSound (pkt_type == clear_confirm) (remove-IsSound g s v) v,
)

server_clear-Yields :
    (g : Gateway) (conn : ℕ) (packet : List ℕ) (pkt_type : ℕ)
    → 2 ≤ length packet
    → IsSound g
    → Yields (server_clear g conn packet pkt_type)
unfolding server_clear clear_session
server_clear-Yields g conn packet pkt_type h v =
    elim (Option-cases (get_by_b_conn_lci g.sm conn (get_lci packet))) [
      | inl e ↦ rw (e, server_clear) (done v)
      | inr (s, e) ↦
          rw (e, server_clear)
            (drop_confirmed-Yields s pkt_type _
              (to_kernel-Yields _ packet s.lci_a h (set_state-IsSound g s p5 v)))
    ]

deliver_tun-Goes :
    (g : Gateway) (lci : ℕ) (packet : List ℕ)
    → 2 ≤ length packet
    → IsSound g
    → Goes (deliver_tun g lci packet)
unfolding deliver_tun
deliver_tun-Goes g lci packet h v = elim (Option-cases (get_by_a_lci g.sm lci)) [
  | inl e ↦ rw (e, deliver_tun) (stops false v)
  | inr (s, e) ↦ rw (e, deliver_tun) (go_on-Goes _ (to_kernel-Yields g packet lci h v))
]

pub if-Goes :
    (b : Bool) (o p : Option (Gateway × Bool)) → Goes o → Goes p → Goes (if b then o else p)
if-Goes true o p v w = v
if-Goes false o p v w = w

server_call-Goes :
    (g : Gateway) (conn : ℕ) (packet : List ℕ)
    → conn ≢ 0
    → 2 ≤ length packet
    → IsSound g
    → Goes (server_call g conn packet)
unfolding server_call
server_call-Goes g conn packet ne h v =
    let w = get_tun_lci-IsSound g conn (get_gfi packet) (get_lci packet) ne v in
    if-Goes (_ == 0) _ _ (stops false (clear_conn-IsSound _ conn _ _ _ _ w))
      (deliver_tun-Goes _ _ packet h w)

server_data-Goes :
    (g : Gateway) (conn : ℕ) (packet : List ℕ) (link : LinkState)
    → conn ≢ 0
    → 2 ≤ length packet
    → IsSound g
    → Goes (server_data g conn packet link)
unfolding server_data
server_data-Goes g conn packet operational ne h v =
    if-Goes g.shutting_down _ _ (stops false v) (server_call-Goes g conn packet ne h v)
server_data-Goes g conn packet down ne h v = stops false (clear_conn-IsSound g conn _ _ _ _ v)
server_data-Goes g conn packet connecting ne h v = stops false (clear_conn-IsSound g conn _ _ _ _ v)

-- Whether the read failed or gave a packet of at least two bytes, a round for a connection that
-- xot-server opened has a result.
pub handle_server_conn-Goes :
    (g : Gateway) (conn : ℕ) (packet : List ℕ)
    → conn ≢ 0
    → 2 ≤ length packet
    → IsSound g
    → Goes (handle_server_conn g conn (ok packet))
unfolding handle_server_conn server_packet
handle_server_conn-Goes g conn packet ne h v =
    let w = replace_old-IsSound g conn (get_lci packet) (get_packet_type packet) v in
    if-Goes (is_clear (get_packet_type packet)) _ _
      (go_on-Goes _ (server_clear-Yields _ conn packet _ h w))
      (server_data-Goes _ conn packet _ ne h w)
