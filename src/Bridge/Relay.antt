-- ===== src/Bridge/Relay.antt =====
-- src/cmd/xot-server/main.go, src/cmd/xot-gateway/main.go: the relay of one call. Two threads read
-- the two connections, a watcher waits until both have returned, the main thread waits for the end
-- of the call and closes the connections, and in xot-gateway a keepalive sends probes. One event is
-- one round of one of them.
pub mod Shape
pub mod Channels
pub mod Ends
use goxot.Base.{
  ℕ, suc, Bool, true, false, not, ◌&&◌, ◌||◌, List, [], ◌∷◌, ◌++◌, Result, ok, err, ◌==◌,
  if◌then◌else◌,
}
use goxot.X25.Packet.{
  serialize, get_gfi, get_lci, get_packet_type, call_connected, clear_request, clear_confirm,
  cause_local_procedure_error, cause_out_of_order,
}
use goxot.X25.Create.{create_clear_request, create_interrupt}
use goxot.Xot.{XotError, too_long, no_connection}

abbrev pub interrupt_confirm : ℕ
interrupt_confirm = 0x27

abbrev pub diag_packet_too_long : ℕ
diag_packet_too_long = 39

-- `near_reads`, `far_reads` and `keeps`: which threads have not returned. `quit`: relayQuit is
-- closed. `closed`: the main thread has closed both connections. `to_near` and `to_far` are what was
-- written, oldest first. `probes` and `swallowed` count the interrupts that the keepalive sent and
-- the confirmations that were kept from the near side.
pub record Relay : Type 0 where
  pub gfi : ℕ
  pub lci : ℕ
  pub near_reads : Bool
  pub far_reads : Bool
  pub keeps : Bool
  pub quit : Bool
  pub closed : Bool
  pub established : Bool
  pub probe_in_flight : Bool
  pub to_near : List (List ℕ)
  pub to_far : List (List ℕ)
  pub probes : ℕ
  pub swallowed : ℕ

-- The call goes to the far side first. xot-server has no keepalive.
unfoldable pub new_relay : ℕ → ℕ → Bool → List ℕ → Relay
new_relay gfi lci keepalive call = record {
  gfi = gfi;
  lci = lci;
  near_reads = true;
  far_reads = true;
  keeps = keepalive;
  quit = false;
  closed = false;
  established = false;
  probe_in_flight = false;
  to_near = [];
  to_far = call ∷ [];
  probes = 0;
  swallowed = 0;
}

unfoldable pub send_near : Relay → List ℕ → Relay
send_near b packet = record b { to_near = b.to_near ++ packet ∷ [] }

unfoldable pub send_far : Relay → List ℕ → Relay
send_far b packet = record b { to_far = b.to_far ++ packet ∷ [] }

unfoldable pub is_clear : ℕ → Bool
is_clear pkt_type = pkt_type == clear_request || pkt_type == clear_confirm

-- A packet that is too long is answered on the near side, whichever side it came from.
unfoldable pub read_error : Relay → XotError → Relay
unfolding send_near
read_error b (too_long head) = send_near b (
    serialize (
      create_clear_request (get_gfi head) (get_lci head) cause_local_procedure_error
        diag_packet_too_long))
read_error b _ = b

unfoldable pub near_packet : Relay → List ℕ → Relay
unfolding send_far
near_packet b packet =
    if not (get_lci packet == b.lci)
    then b
    else if is_clear (get_packet_type packet)
    then record (send_far b packet) {
      near_reads = false;
      quit = b.quit || get_packet_type packet == clear_confirm;
    }
    else send_far b packet

unfoldable pub far_packet : Relay → List ℕ → Relay
unfolding send_near
far_packet b packet =
    if not (get_lci packet == b.lci)
    then b
    else if get_packet_type packet == call_connected
    then send_near (record b { established = true }) packet
    else if get_packet_type packet == interrupt_confirm && b.probe_in_flight
    then record b { probe_in_flight = false; swallowed = suc b.swallowed }
    else if is_clear (get_packet_type packet)
    then record (send_near b packet) {
      far_reads = false;
      quit = b.quit || get_packet_type packet == clear_confirm;
    }
    else send_near b packet

-- A read of a closed connection fails.
unfoldable pub outcome : Relay → Result XotError (List ℕ) → Result XotError (List ℕ)
outcome b r = if b.closed then err no_connection else r

near_result : Relay → Result XotError (List ℕ) → Relay
near_result b (err e) = record (read_error b e) { near_reads = false; quit = true }
near_result b (ok packet) = near_packet b packet

far_result : Relay → Result XotError (List ℕ) → Relay
far_result b (err e) = record (read_error b e) { far_reads = false; quit = true }
far_result b (ok packet) = far_packet b packet

unfoldable pub probe : Relay → Relay
unfolding send_far
probe b = record (if b.closed then b else send_far b (create_interrupt b.gfi b.lci 0x01)) {
  probe_in_flight = true;
  probes = suc b.probes;
}

-- A tick of the keepalive; `idle`: no packet has come for an interval.
unfoldable pub keepalive_tick : Relay → Bool → Relay
unfolding probe
keepalive_tick b idle =
    if b.keeps && b.established && idle
    then if b.probe_in_flight then record b { quit = true; keeps = false } else probe b
    else b

-- `both_returned`: the watcher's wait ends. `keeper_returned`: the keepalive sees the end of the
-- call. `main_quits` and `shut_down`: the main thread's two ways out of its wait.
pub data Event : Type 0 where
  near_read far_read : Result XotError (List ℕ) → Event
  tick : Bool → Event
  both_returned keeper_returned main_quits shut_down : Event

unfoldable pub handle : Relay → Event → Relay
unfolding near_result far_result send_near
handle b (near_read r) = if b.near_reads then near_result b (outcome b r) else b
handle b (far_read r) = if b.far_reads then far_result b (outcome b r) else b
handle b (tick idle) = keepalive_tick b idle
handle b both_returned = if not b.near_reads && not b.far_reads then record b { quit = true } else b
handle b keeper_returned = if b.quit || b.closed then record b { keeps = false } else b
handle b main_quits = if b.quit then record b { closed = true } else b
handle b shut_down =
    if b.closed
    then b
    else record (send_near b (serialize (create_clear_request b.gfi b.lci cause_out_of_order 0))) {
      closed = true;
    }

unfoldable pub run : Relay → List Event → Relay
run b [] = b
run b (e ∷ events) = run (handle b e) events

-- The connections are closed and every thread has returned.
unfoldable pub is_over : Relay → Bool
is_over b = b.closed && not b.near_reads && not b.far_reads && not b.keeps
