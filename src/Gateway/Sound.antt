-- ===== src/Gateway/Sound.antt =====
-- src/cmd/tun-gateway/main.go: what every handler keeps of the sessions, and that no round runs out
-- of a packet's bounds.
pub mod Readers
pub mod Dial
pub mod Kernel
pub mod Traces
use goxot.Base.{
  ℕ, suc, ◌≤◌, ◌≡◌, ◌≢◌, refl, Bool, true, false, not, ◌&&◌, List, [], ◌∷◌, Option, none, some,
  ◌==◌, if◌then◌else◌, length, arith, Bool-cases, Option-cases, inl, inr, Result, ok, err,
}
use goxot.X25.Packet.{get_lci, remap_lci, X25Packet, serialize, cause_network_congestion}
use goxot.X25.Packet.Header.{remap_lci_total}
use goxot.Session.{
  Session, SessionManager, CallState, remove_session, remove_all_sessions,
  allocate_and_add_tun_session, get_sessions_for_conn, add_session,
}
use goxot.Session.Keyed.{
  Keyed, remove_session-Keyed, remove_all_sessions-Keyed, allocate-Keyed, new_session_manager-Keyed,
}
use goxot.Gateway.{
  Gateway, write_tun, send, clear_tun, clear_conn, with_sm, get_tun_lci, cleanup_one, cleanup_each,
  cleanup_conn, clear_each, close_all_sessions, end_reader, open_conn,
}

pub record IsSound (g : Gateway) : Type 0 where
  pub keyed : Keyed g.sm
  pub next : g.next_conn ≢ 0

-- `g'` has the sessions and the connections of `g`.
pub record SameSessions (g g' : Gateway) : Type 0 where
  pub sm : g'.sm ≡ g.sm
  pub next : g'.next_conn ≡ g.next_conn

pub SameSessions-IsSound : {g g' : Gateway} → SameSessions g g' → IsSound g → IsSound g'
SameSessions-IsSound e v = record { keyed = rw e.sm v.keyed; next = rw e.next v.next }

pub with_sm-IsSound :
    (g : Gateway) (sm : SessionManager) → Keyed sm → IsSound g → IsSound (with_sm g sm)
unfolding with_sm
with_sm-IsSound g sm k v = record { keyed = k; next = v.next }

pub write_tun-Same :
    (g : Gateway) (hdr : ℕ) (payload : List ℕ) → SameSessions g (write_tun g hdr payload)
unfolding write_tun
write_tun-Same g hdr payload = record { sm = refl; next = refl }

pub send-Same : (g : Gateway) (conn : ℕ) (packet : List ℕ) → SameSessions g (send g conn packet)
unfolding send
send-Same g conn packet = elim (Bool-cases (conn == 0)) [
  | inl e ↦ rw (e, send) (record { sm = refl; next = refl })
  | inr e ↦ rw (e, send) (record { sm = refl; next = refl })
]

pub write_tun-IsSound :
    (g : Gateway) (hdr : ℕ) (payload : List ℕ) → IsSound g → IsSound (write_tun g hdr payload)
write_tun-IsSound g hdr payload = SameSessions-IsSound (write_tun-Same g hdr payload)

pub send-IsSound :
    (g : Gateway) (conn : ℕ) (packet : List ℕ) → IsSound g → IsSound (send g conn packet)
send-IsSound g conn packet = SameSessions-IsSound (send-Same g conn packet)

pub clear_tun-IsSound :
    (g : Gateway) (gfi lci cause diag : ℕ) → IsSound g → IsSound (clear_tun g gfi lci cause diag)
unfolding clear_tun
clear_tun-IsSound g gfi lci cause diag = write_tun-IsSound g _ _

pub clear_conn-IsSound :
    (g : Gateway) (conn gfi lci cause diag : ℕ)
    → IsSound g
    → IsSound (clear_conn g conn gfi lci cause diag)
unfolding clear_conn
clear_conn-IsSound g conn gfi lci cause diag = send-IsSound g conn _

pub if-IsSound : (b : Bool) {g h : Gateway} → IsSound g → IsSound h → IsSound (if b then g else h)
if-IsSound true v w = v
if-IsSound false v w = w

pub remove-IsSound :
    (g : Gateway) (s : Session) → IsSound g → IsSound (with_sm g (remove_session g.sm s))
remove-IsSound g s v = with_sm-IsSound g _ (remove_session-Keyed g.sm s v.keyed) v

cleanup_one-IsSound : (g : Gateway) (s : Session) → IsSound g → IsSound (cleanup_one g s)
unfolding cleanup_one
cleanup_one-IsSound g s v = remove-IsSound _ s (if-IsSound _ (clear_tun-IsSound g _ _ _ _ v) v)

cleanup_each-IsSound :
    (g : Gateway) (sessions : List Session) → IsSound g → IsSound (cleanup_each g sessions)
unfolding cleanup_each
cleanup_each-IsSound g [] v = v
cleanup_each-IsSound g (s ∷ sessions) v =
    cleanup_each-IsSound (cleanup_one g s) sessions (cleanup_one-IsSound g s v)

pub end_reader-IsSound : (g : Gateway) (conn : ℕ) → IsSound g → IsSound (end_reader g conn)
unfolding end_reader cleanup_conn
end_reader-IsSound g conn v =
    let w = cleanup_each-IsSound g (get_sessions_for_conn g.sm conn) v in
    record { keyed = w.keyed; next = w.next }

clear_each-IsSound :
    (g : Gateway) (sessions : List Session) → IsSound g → IsSound (clear_each g sessions)
unfolding clear_each
clear_each-IsSound g [] v = v
clear_each-IsSound g (s ∷ sessions) v =
    clear_each-IsSound (clear_conn g s.conn_b s.gfi s.lci_b cause_network_congestion 0) sessions
      (clear_conn-IsSound g s.conn_b s.gfi s.lci_b cause_network_congestion 0 v)

pub close_all_sessions-IsSound : (g : Gateway) → IsSound g → IsSound (close_all_sessions g)
unfolding close_all_sessions remove_all_sessions
close_all_sessions-IsSound g v =
    clear_each-IsSound _ (remove_all_sessions g.sm).1
      (with_sm-IsSound g _ (remove_all_sessions-Keyed g.sm v.keyed) v)

pub open_conn-IsSound : (g : Gateway) → IsSound g → IsSound (open_conn g)
unfolding open_conn
open_conn-IsSound g v = record { keyed = v.keyed; next = λ e. ground (arith, e) }

pub get_tun_lci-IsSound :
    (g : Gateway) (conn gfi lci : ℕ) → conn ≢ 0 → IsSound g → IsSound (get_tun_lci g conn gfi lci).0
unfolding get_tun_lci
get_tun_lci-IsSound g conn gfi lci ne v =
    by_result (allocate_and_add_tun_session g.sm conn gfi lci).1 refl
  where
    by_result :
        (r : Result _ Session)
        → (allocate_and_add_tun_session g.sm conn gfi lci).1 ≡ r
        → IsSound (get_tun_lci g conn gfi lci).0
    by_result (ok s) e =
        rw (e, get_tun_lci) (with_sm-IsSound g _ (allocate-Keyed g.sm conn gfi lci ne v.keyed) v)
    by_result (err x) e =
        rw (e, get_tun_lci) (with_sm-IsSound g _ (allocate-Keyed g.sm conn gfi lci ne v.keyed) v)
