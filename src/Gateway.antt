-- ===== src/Gateway.antt =====
-- src/cmd/tun-gateway/main.go: the process between one TUN interface and the XOT processes.
-- A state holds the session manager, the link, the flag of a shutdown, and what was written:
-- `frames` to the interface and `messages` to connections, newest first, the latter as SendXot gets
-- them (src/xot.go frames them). A connection is a number below `next_conn`, and 0 is nil. One step
-- is one round of a handler's loop. Logging and counters are left out.
pub mod Server
pub mod Kernel
pub mod Dial
pub mod Sound
pub mod Served
pub mod Answer
pub mod Closed
pub mod Short
pub mod Restart
pub mod Routes
use goxot.Base.{
  ℕ, suc, Bool, true, false, not, ◌&&◌, List, [], ◌∷◌, Option, none, some, Result, ok, err, ◌==◌,
  if◌then◌else◌,
}
use goxot.Base.Maps.{ℕ_key, lookup, insert}
use goxot.Link.{LinkState, header_data}
use goxot.Session.{
  CallState, p1, Session, SessionManager, SessionError, get_by_a_lci, allocate_and_add_tun_session,
  get_sessions_for_conn, remove_session, remove_all_sessions, points_to,
}
use goxot.X25.Packet.{X25Packet, serialize, cause_network_congestion, cause_out_of_order}
use goxot.X25.Create.{create_clear_request}

pub record TunFrame : Type 0 where
  pub control : ℕ
  pub payload : List ℕ

pub record Message : Type 0 where
  pub conn : ℕ
  pub packet : List ℕ

-- `spawned`: the calls whose forwardToGateway has not run yet. `closed`: the connections that were
-- closed.
pub record Gateway : Type 0 where
  pub sm : SessionManager
  pub link_state : LinkState
  pub shutting_down : Bool
  pub spawned : List X25Packet
  pub next_conn : ℕ
  pub closed : List ℕ
  pub frames : List TunFrame
  pub messages : List Message

unfoldable pub write_tun : Gateway → ℕ → List ℕ → Gateway
write_tun g control payload = record g {
  frames = record { control = control; payload = payload } ∷ g.frames;
}

-- SendXot returns an error for the nil connection.
unfoldable pub send : Gateway → ℕ → List ℕ → Gateway
send g conn packet =
    if conn == 0
    then g
    else record g { messages = record { conn = conn; packet = packet } ∷ g.messages }

unfoldable pub clear_tun : Gateway → ℕ → ℕ → ℕ → ℕ → Gateway
unfolding write_tun
clear_tun g gfi lci cause diag =
    write_tun g header_data (serialize (create_clear_request gfi lci cause diag))

unfoldable pub clear_conn : Gateway → ℕ → ℕ → ℕ → ℕ → ℕ → Gateway
unfolding send
clear_conn g conn gfi lci cause diag =
    send g conn (serialize (create_clear_request gfi lci cause diag))

unfoldable pub with_sm : Gateway → SessionManager → Gateway
with_sm g sm = record g { sm = sm }

unfoldable pub is_p1 : Option CallState → Bool
is_p1 (some p1) = true
is_p1 _ = false

-- s.State
unfoldable pub state_of : SessionManager → Session → Option CallState
state_of sm s = lookup s.address sm.states

-- The session's LCI, or 0 when there is no LCI left.
unfoldable pub get_tun_lci : Gateway → ℕ → ℕ → ℕ → Gateway × ℕ
unfolding with_sm
get_tun_lci g conn gfi lci =
    let (sm, result) = allocate_and_add_tun_session g.sm conn gfi lci in
    elim result [ ok s ↦ (with_sm g sm, s.lci_a) | err e ↦ (with_sm g sm, 0) ]

-- A CLEAR goes to the kernel only for a call that it knows, and only while the session has its LCI.
unfoldable pub cleanup_one : Gateway → Session → Gateway
unfolding is_p1 state_of clear_tun with_sm
cleanup_one g s =
    let g' =
      if not (is_p1 (state_of g.sm s)) && points_to s (get_by_a_lci g.sm s.lci_a)
      then clear_tun g s.gfi s.lci_a cause_out_of_order 0
      else g in
    with_sm g' (remove_session g'.sm s)

unfoldable pub cleanup_each : Gateway → List Session → Gateway
unfolding cleanup_one
cleanup_each g [] = g
cleanup_each g (s ∷ sessions) = cleanup_each (cleanup_one g s) sessions

unfoldable pub cleanup_conn : Gateway → ℕ → Gateway
unfolding cleanup_each
cleanup_conn g conn = cleanup_each g (get_sessions_for_conn g.sm conn)

unfoldable pub clear_each : Gateway → List Session → Gateway
unfolding clear_conn
clear_each g [] = g
clear_each g (s ∷ sessions) =
    clear_each (clear_conn g s.conn_b s.gfi s.lci_b cause_network_congestion 0) sessions

unfoldable pub close_all_sessions : Gateway → Gateway
unfolding with_sm clear_each
close_all_sessions g =
    let (sm, sessions) = remove_all_sessions g.sm in clear_each (with_sm g sm) sessions

-- The deferred calls when a reader of a connection returns.
unfoldable pub end_reader : Gateway → ℕ → Gateway
unfolding cleanup_conn
end_reader g conn = let g' = cleanup_conn g conn in record g' { closed = conn ∷ g'.closed }

-- A listener's or a dialler's new connection.
unfoldable pub open_conn : Gateway → Gateway
open_conn g = record g { next_conn = suc g.next_conn }
