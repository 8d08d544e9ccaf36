-- ===== src/Bridge/Relay/Shape.antt =====
-- src/cmd/xot-server/main.go, src/cmd/xot-gateway/main.go: what every run of a relay keeps, also
-- when reads fail, probes are sent and the process shuts down.
use goxot.Base.{
  ℕ, suc, ◌+◌, ◌*◌, ◌/◌, ◌%◌, ◌<◌, ◌≡◌, refl, ◌∙◌, Bool, true, false, not, ◌&&◌, ◌||◌, List, [],
  ◌∷◌, Result, ok, err, ◌==◌, if◌then◌else◌, arith, All, All-append,
}
use goxot.Base.Bits.{or_nibbles}
use goxot.X25.Packet.{get_lci, get_packet_type, call_connected, interrupt}
use goxot.X25.Packet.Header.{get_lci_lem}
use goxot.X25.Create.{create_interrupt}
use goxot.Xot.{
  XotError, too_long, no_connection, end_of_input, bad_version, wrong_length, small_buffer,
}
use goxot.Bridge.Relay.{
  Relay, Event, near_read, far_read, tick, both_returned, keeper_returned, main_quits, shut_down,
  new_relay, is_clear, interrupt_confirm, send_near, send_far, near_packet, far_packet, outcome,
  near_result, far_result, read_error, probe, keepalive_tick, handle, run,
}

unfoldable pub flight : Bool → ℕ
flight true = 1
flight false = 0

unfoldable pub Balanced : Relay → Type 0
Balanced b = b.probes ≡ b.swallowed + flight b.probe_in_flight

-- `b'` differs from `b` in its threads and the near side at most.
record SameFar (b b' : Relay) : Type 0 where
  gfi : b'.gfi ≡ b.gfi
  lci : b'.lci ≡ b.lci
  to_far : b'.to_far ≡ b.to_far
  probes : b'.probes ≡ b.probes
  swallowed : b'.swallowed ≡ b.swallowed
  probe_in_flight : b'.probe_in_flight ≡ b.probe_in_flight

same_far : {b : Relay} → SameFar b b
same_far = record {
  gfi = refl;
  lci = refl;
  to_far = refl;
  probes = refl;
  swallowed = refl;
  probe_in_flight = refl;
}

send_near-SameFar : (b : Relay) (packet : List ℕ) → SameFar b (send_near b packet)
unfolding send_near
send_near-SameFar b packet = record {
  gfi = refl;
  lci = refl;
  to_far = refl;
  probes = refl;
  swallowed = refl;
  probe_in_flight = refl;
}

read_error-SameFar : (b : Relay) (e : XotError) → SameFar b (read_error b e)
unfolding read_error
read_error-SameFar b (too_long head) = send_near-SameFar b _
read_error-SameFar b no_connection = same_far
read_error-SameFar b end_of_input = same_far
read_error-SameFar b (bad_version n) = same_far
read_error-SameFar b (wrong_length n m) = same_far
read_error-SameFar b (small_buffer n m) = same_far

-- `packet` is of the LCI `lci`.
unfoldable pub OnLci : ℕ → List ℕ → Type 0
OnLci lci packet = get_lci packet ≡ lci

record IsShaped (gfi lci : ℕ) (b : Relay) : Type 0 where
  same_gfi : b.gfi ≡ gfi
  same_lci : b.lci ≡ lci
  on_lci : All (OnLci lci) b.to_far
  balanced : Balanced b

probe-OnLci : (gfi lci : ℕ) → gfi < 16 → lci < 4096 → OnLci lci (create_interrupt gfi lci 0x01)
unfolding OnLci create_interrupt
probe-OnLci gfi lci hg hl = ground (
  arith,
  or_nibbles gfi (lci / 256) hg (omega arith),
  get_lci_lem (gfi * 16 + lci / 256) (lci % 256) (interrupt ∷ 0x01 ∷ []),
)

module _ (gfi lci : ℕ) (hg : gfi < 16) (hl : lci < 4096) where
  SameFar-IsShaped : {b b' : Relay} → SameFar b b' → IsShaped gfi lci b → IsShaped gfi lci b'
  unfolding Balanced
  SameFar-IsShaped s v = record {
    same_gfi = s.gfi ∙ v.same_gfi;
    same_lci = s.lci ∙ v.same_lci;
    on_lci = rw s.to_far v.on_lci;
    balanced = rw (s.probes, s.swallowed, s.probe_in_flight) v.balanced;
  }

  send_far-IsShaped :
      (b : Relay) (packet : List ℕ)
      → OnLci lci packet
      → IsShaped gfi lci b
      → IsShaped gfi lci (send_far b packet)
  unfolding send_far Balanced
  send_far-IsShaped b packet h v = record {
    same_gfi = v.same_gfi;
    same_lci = v.same_lci;
    on_lci = All-append (OnLci lci) b.to_far (packet ∷ []) v.on_lci (h, tt);
    balanced = v.balanced;
  }

  -- The threads and the end of the call do not matter.
  threads :
      {b : Relay} {near far keeps quit closed : Bool}
      → IsShaped gfi lci b
      → IsShaped gfi lci (record b {
        near_reads = near;
        far_reads = far;
        keeps = keeps;
        quit = quit;
        closed = closed;
      })
  unfolding Balanced
  threads v = record {
    same_gfi = v.same_gfi;
    same_lci = v.same_lci;
    on_lci = v.on_lci;
    balanced = v.balanced;
  }

  if-IsShaped :
      (t : Bool) {b b' : Relay}
      → (t ≡ true → IsShaped gfi lci b)
      → (t ≡ false → IsShaped gfi lci b')
      → IsShaped gfi lci (if t then b else b')
  if-IsShaped true h k = h refl
  if-IsShaped false h k = k refl

  near_packet-IsShaped :
      (b : Relay) (packet : List ℕ) → IsShaped gfi lci b → IsShaped gfi lci (near_packet b packet)
  unfolding near_packet OnLci
  near_packet-IsShaped b packet v =
      if-IsShaped (not (get_lci packet == b.lci)) (λ e. v)
        (λ e.
          let w = send_far-IsShaped b packet (ground (arith, v.same_lci, e)) v in
          if-IsShaped (is_clear (get_packet_type packet)) (λ c. threads w) (λ c. w))

  confirmed :
      (b : Relay)
      → IsShaped gfi lci b
      → b.probe_in_flight ≡ true
      → IsShaped gfi lci (record b { probe_in_flight = false; swallowed = suc b.swallowed })
  unfolding Balanced flight
  confirmed b v p = record {
    same_gfi = v.same_gfi;
    same_lci = v.same_lci;
    on_lci = v.on_lci;
    balanced = ground (arith, v.balanced, p);
  }

  far_packet-IsShaped :
      (b : Relay) (packet : List ℕ) → IsShaped gfi lci b → IsShaped gfi lci (far_packet b packet)
  unfolding far_packet Balanced flight
  far_packet-IsShaped b packet v =
      let w = SameFar-IsShaped (send_near-SameFar b packet) v in
      if-IsShaped (not (get_lci packet == b.lci)) (λ e. v)
        (λ e.
          if-IsShaped (get_packet_type packet == call_connected)
            (λ c. SameFar-IsShaped (send_near-SameFar _ packet) (record {
              same_gfi = v.same_gfi;
              same_lci = v.same_lci;
              on_lci = v.on_lci;
              balanced = v.balanced;
            }))
            (λ c.
              if-IsShaped (get_packet_type packet == interrupt_confirm && b.probe_in_flight)
                (λ p. confirmed b v (ground (arith, p)))
                (λ p. if-IsShaped (is_clear (get_packet_type packet)) (λ d. threads w) (λ d. w))))

  probed :
      (n : ℕ) (c : Relay)
      → IsShaped gfi lci c
      → c.probe_in_flight ≡ false
      → c.probes ≡ n
      → IsShaped gfi lci (record c { probe_in_flight = true; probes = suc n })
  unfolding Balanced flight
  probed n c v p same = record {
    same_gfi = v.same_gfi;
    same_lci = v.same_lci;
    on_lci = v.on_lci;
    balanced = ground (arith, v.balanced, p, same);
  }

  probe-IsShaped :
      (b : Relay) → b.probe_in_flight ≡ false → IsShaped gfi lci b → IsShaped gfi lci (probe b)
  unfolding probe
  probe-IsShaped b p v = by_closed b.closed
    where
      by_closed :
          (c : Bool)
          → IsShaped gfi lci
              (record (if c then b else send_far b (create_interrupt b.gfi b.lci 0x01)) {
                probe_in_flight = true;
                probes = suc b.probes;
              })
      by_closed true = probed b.probes b v p refl
      by_closed false =
          unfold send_far in
          probed b.probes (send_far b (create_interrupt b.gfi b.lci 0x01))
            (send_far-IsShaped b _ (rw (v.same_gfi, v.same_lci) (probe-OnLci gfi lci hg hl)) v) p
            refl

  keepalive_tick-IsShaped :
      (b : Relay) (idle : Bool) → IsShaped gfi lci b → IsShaped gfi lci (keepalive_tick b idle)
  unfolding keepalive_tick
  keepalive_tick-IsShaped b idle v =
      if-IsShaped (b.keeps && b.established && idle)
        (λ e. if-IsShaped b.probe_in_flight (λ p. threads v) (λ p. probe-IsShaped b p v)) (λ e. v)

  read_failed :
      (b : Relay) (e : XotError) {near far : Bool}
      → IsShaped gfi lci b
      → IsShaped gfi lci
          (record (read_error b e) { near_reads = near; far_reads = far; quit = true })
  read_failed b e v = threads (SameFar-IsShaped (read_error-SameFar b e) v)

  near_result-IsShaped :
      (b : Relay) (r : Result XotError (List ℕ))
      → IsShaped gfi lci b
      → IsShaped gfi lci (near_result b r)
  unfolding near_result
  near_result-IsShaped b (err e) v = read_failed b e v
  near_result-IsShaped b (ok packet) v = near_packet-IsShaped b packet v

  far_result-IsShaped :
      (b : Relay) (r : Result XotError (List ℕ))
      → IsShaped gfi lci b
      → IsShaped gfi lci (far_result b r)
  unfolding far_result
  far_result-IsShaped b (err e) v = read_failed b e v
  far_result-IsShaped b (ok packet) v = far_packet-IsShaped b packet v

  handle-IsShaped : (b : Relay) (e : Event) → IsShaped gfi lci b → IsShaped gfi lci (handle b e)
  unfolding handle
  handle-IsShaped b (near_read r) v =
      if-IsShaped b.near_reads (λ e. near_result-IsShaped b (outcome b r) v) (λ e. v)
  handle-IsShaped b (far_read r) v =
      if-IsShaped b.far_reads (λ e. far_result-IsShaped b (outcome b r) v) (λ e. v)
  handle-IsShaped b (tick idle) v = keepalive_tick-IsShaped b idle v
  handle-IsShaped b both_returned v =
      if-IsShaped (not b.near_reads && not b.far_reads) (λ e. threads v) (λ e. v)
  handle-IsShaped b keeper_returned v = if-IsShaped (b.quit || b.closed) (λ e. threads v) (λ e. v)
  handle-IsShaped b main_quits v = if-IsShaped b.quit (λ e. threads v) (λ e. v)
  handle-IsShaped b shut_down v =
      if-IsShaped b.closed (λ e. v) (λ e. threads (SameFar-IsShaped (send_near-SameFar b _) v))

  run-IsShaped :
      (events : List Event) (b : Relay) → IsShaped gfi lci b → IsShaped gfi lci (run b events)
  unfolding run
  run-IsShaped [] b v = v
  run-IsShaped (e ∷ events) b v = run-IsShaped events (handle b e) (handle-IsShaped b e v)

-- Whatever happens to a call on an LCI below 4096 with a GFI of four bits, all that is written to
-- the far side has the LCI of the call, the probes too, provided that the call's own packet has it;
-- and the probes sent are as many as the confirmations kept from the near side, and one more
-- while a probe is in flight.
pub run-OnLci :
    (gfi lci : ℕ) (keepalive : Bool) (call : List ℕ) (events : List Event)
    → gfi < 16
    → lci < 4096
    → get_lci call ≡ lci
    → All (OnLci lci) (run (new_relay gfi lci keepalive call) events).to_far
      × Balanced (run (new_relay gfi lci keepalive call) events)
unfolding new_relay OnLci Balanced flight
run-OnLci gfi lci keepalive call events hg hl h =
    let v =
      run-IsShaped gfi lci hg hl events (new_relay gfi lci keepalive call)
        (record { same_gfi = refl; same_lci = refl; on_lci = (h, tt); balanced = refl }) in
    (v.on_lci, v.balanced)
