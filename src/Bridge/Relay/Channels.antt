-- ===== src/Bridge/Relay/Channels.antt =====
-- src/cmd/xot-server/main.go, src/cmd/xot-gateway/main.go: in each direction the relay is a channel
-- of its own, however the rounds of the two threads interleave.
use goxot.Base.{
  ℕ, ◌≡◌, refl, sym, ◌∙◌, Bool, true, false, not, List, [], ◌∷◌, ◌++◌, ok, err, ◌==◌, if◌then◌else◌,
  arith, All,
}
use mathlib.Core.List.{append_assoc, append-nil}
use goxot.X25.Packet.{get_lci, get_packet_type}
use goxot.Bridge.Relay.{
  Relay, Event, near_read, far_read, tick, both_returned, keeper_returned, main_quits, shut_down,
  new_relay, is_clear, send_near, send_far, near_packet, far_packet, outcome, near_result,
  far_result, handle, run,
}

-- What a channel for one LCI passes on: the packets of that LCI, in order, up to the first CLEAR.
unfoldable pub passed : ℕ → List (List ℕ) → List (List ℕ)
passed lci [] = []
passed lci (packet ∷ packets) =
    let rest = passed lci packets in
    if not (get_lci packet == lci)
    then rest
    else if is_clear (get_packet_type packet)
    then packet ∷ []
    else packet ∷ rest

-- The packets that the near and the far thread read in a run.
unfoldable pub near_packets : List Event → List (List ℕ)
near_packets [] = []
near_packets (near_read (ok packet) ∷ events) = packet ∷ near_packets events
near_packets (e ∷ events) = near_packets events

unfoldable pub far_packets : List Event → List (List ℕ)
far_packets [] = []
far_packets (far_read (ok packet) ∷ events) = packet ∷ far_packets events
far_packets (e ∷ events) = far_packets events

-- A round while the call is up and no read fails.
unfoldable pub IsRelaying : Event → Type 0
IsRelaying (near_read (ok packet)) = Unit
IsRelaying (far_read (ok packet)) = Unit
IsRelaying both_returned = Unit
IsRelaying keeper_returned = Unit
IsRelaying _ = ⊥

rest_of : Bool → ℕ → List (List ℕ) → List (List ℕ)
rest_of reads lci packets = if reads then passed lci packets else []

near_round :
    (b : Relay) (packet : List ℕ) (packets : List (List ℕ))
    → b.closed ≡ false
    → (handle b (near_read (ok packet))).to_far
        ++ rest_of (handle b (near_read (ok packet))).near_reads b.lci packets
      ≡ b.to_far ++ rest_of b.near_reads b.lci (packet ∷ packets)
unfolding handle near_result near_packet outcome send_far rest_of passed
near_round b packet packets e = ground (
  arith,
  append_assoc b.to_far (packet ∷ []) (passed b.lci packets),
  append_assoc b.to_far (packet ∷ []) [],
)

far_round :
    (b : Relay) (packet : List ℕ) (packets : List (List ℕ))
    → b.closed ≡ false
    → b.probe_in_flight ≡ false
    → (handle b (far_read (ok packet))).to_near
        ++ rest_of (handle b (far_read (ok packet))).far_reads b.lci packets
      ≡ b.to_near ++ rest_of b.far_reads b.lci (packet ∷ packets)
unfolding handle far_result far_packet outcome send_near rest_of passed is_clear
far_round b packet packets e p = ground (
  arith,
  append_assoc b.to_near (packet ∷ []) (passed b.lci packets),
  append_assoc b.to_near (packet ∷ []) [],
)

-- What a round leaves of the state that the channels depend on.
record Kept (b b' : Relay) : Type 0 where
  same_lci : b'.lci ≡ b.lci
  same_closed : b'.closed ≡ b.closed
  same_flight : b.probe_in_flight ≡ false → b'.probe_in_flight ≡ false

near_Kept :
    (b : Relay) (packet : List ℕ) → b.closed ≡ false → Kept b (handle b (near_read (ok packet)))
unfolding handle near_result near_packet outcome send_far
near_Kept b packet e = record {
  same_lci = ground arith;
  same_closed = ground arith;
  same_flight = λ p. ground arith;
}

far_Kept :
    (b : Relay) (packet : List ℕ) → b.closed ≡ false → Kept b (handle b (far_read (ok packet)))
unfolding handle far_result far_packet outcome send_near
far_Kept b packet e = record {
  same_lci = ground arith;
  same_closed = ground arith;
  same_flight = λ p. ground arith;
}

near_far_reads :
    (b : Relay) (packet : List ℕ)
    → b.closed ≡ false
    → ((handle b (near_read (ok packet))).far_reads ≡ b.far_reads)
      × ((handle b (near_read (ok packet))).to_near ≡ b.to_near)
unfolding handle near_result near_packet outcome send_far
near_far_reads b packet e = (ground arith, ground arith)

far_near_reads :
    (b : Relay) (packet : List ℕ)
    → b.closed ≡ false
    → ((handle b (far_read (ok packet))).near_reads ≡ b.near_reads)
      × ((handle b (far_read (ok packet))).to_far ≡ b.to_far)
unfolding handle far_result far_packet outcome send_near
far_near_reads b packet e = (ground arith, ground arith)

-- A round in which nothing is read.
record Still (b b' : Relay) : Type 0 where
  same_lci : b'.lci ≡ b.lci
  same_closed : b'.closed ≡ b.closed
  same_flight : b'.probe_in_flight ≡ b.probe_in_flight
  same_near : b'.near_reads ≡ b.near_reads
  same_far : b'.far_reads ≡ b.far_reads
  same_to_near : b'.to_near ≡ b.to_near
  same_to_far : b'.to_far ≡ b.to_far

both_returned-Still : (b : Relay) → Still b (handle b both_returned)
unfolding handle
both_returned-Still b = record {
  same_lci = ground arith;
  same_closed = ground arith;
  same_flight = ground arith;
  same_near = ground arith;
  same_far = ground arith;
  same_to_near = ground arith;
  same_to_far = ground arith;
}

keeper_returned-Still : (b : Relay) → Still b (handle b keeper_returned)
unfolding handle
keeper_returned-Still b = record {
  same_lci = ground arith;
  same_closed = ground arith;
  same_flight = ground arith;
  same_near = ground arith;
  same_far = ground arith;
  same_to_near = ground arith;
  same_to_far = ground arith;
}

abbrev AreChannels : Relay → List Event → Relay → Type 0
AreChannels b events b' =
    (b'.to_far ≡ b.to_far ++ rest_of b.near_reads b.lci (near_packets events))
    × (b'.to_near ≡ b.to_near ++ rest_of b.far_reads b.lci (far_packets events))

rest_of_nil : (reads : Bool) (lci : ℕ) → rest_of reads lci [] ≡ []
unfolding rest_of passed
rest_of_nil true lci = refl
rest_of_nil false lci = refl

Still-channels :
    {b b' : Relay} (b'' : Relay) (events : List Event)
    → Still b b'
    → AreChannels b' events b''
    → AreChannels b events b''
Still-channels b'' events s (f, n) = (
  f ∙ rw (s.same_to_far, s.same_near, s.same_lci) refl,
  n ∙ rw (s.same_to_near, s.same_far, s.same_lci) refl,
)

run-channels :
    (events : List Event) (b : Relay)
    → All IsRelaying events
    → b.closed ≡ false
    → b.probe_in_flight ≡ false
    → AreChannels b events (run b events)
unfolding run IsRelaying near_packets far_packets
run-channels [] b h e p = (
  sym (rw (rest_of_nil b.near_reads b.lci) (append-nil b.to_far)),
  sym (rw (rest_of_nil b.far_reads b.lci) (append-nil b.to_near)),
)
run-channels (near_read (ok packet) ∷ events) b (u, h) e p =
    let k = near_Kept b packet e in
    let o = near_far_reads b packet e in
    let (f, n) =
      run-channels events (handle b (near_read (ok packet))) h (k.same_closed ∙ e)
        (k.same_flight p) in
    (
      f ∙ rw k.same_lci (near_round b packet (near_packets events) e),
      n ∙ rw (k.same_lci, o.0, o.1) refl,
    )
run-channels (far_read (ok packet) ∷ events) b (u, h) e p =
    let k = far_Kept b packet e in
    let o = far_near_reads b packet e in
    let (f, n) =
      run-channels events (handle b (far_read (ok packet))) h (k.same_closed ∙ e)
        (k.same_flight p) in
    (
      f ∙ rw (k.same_lci, o.0, o.1) refl,
      n ∙ rw k.same_lci (far_round b packet (far_packets events) e p),
    )
run-channels (both_returned ∷ events) b (u, h) e p =
    let s = both_returned-Still b in
    Still-channels (run (handle b both_returned) events) events s
      (run-channels events _ h (s.same_closed ∙ e) (s.same_flight ∙ p))
run-channels (keeper_returned ∷ events) b (u, h) e p =
    let s = keeper_returned-Still b in
    Still-channels (run (handle b keeper_returned) events) events s
      (run-channels events _ h (s.same_closed ∙ e) (s.same_flight ∙ p))
run-channels (near_read (err x) ∷ events) b (u, h) e p = elim u [ ]
run-channels (far_read (err x) ∷ events) b (u, h) e p = elim u [ ]
run-channels (tick idle ∷ events) b (u, h) e p = elim u [ ]
run-channels (main_quits ∷ events) b (u, h) e p = elim u [ ]
run-channels (shut_down ∷ events) b (u, h) e p = elim u [ ]

-- While a call is up, no read fails and no probe is sent, the far side gets, however the rounds of
-- the threads interleave, the call and behind it the packets that the near thread reads, those of
-- the call's LCI alone, in order and up to the first CLEAR; and the near side those that the far
-- thread reads, by the same rule.
pub run_passes :
    (gfi lci : ℕ) (keepalive : Bool) (call : List ℕ) (events : List Event)
    → All IsRelaying events
    → ((run (new_relay gfi lci keepalive call) events).to_far
        ≡ call ∷ passed lci (near_packets events))
      × ((run (new_relay gfi lci keepalive call) events).to_near ≡ passed lci (far_packets events))
unfolding new_relay rest_of
run_passes gfi lci keepalive call events h =
    run-channels events (new_relay gfi lci keepalive call) h refl refl
