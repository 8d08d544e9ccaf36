-- ===== src/Bridge/Relay/Ends.antt =====
-- src/cmd/xot-server/main.go, src/cmd/xot-gateway/main.go: what ends a call, and that every thread of
-- the relay then returns.
use goxot.Base.{
  ℕ, ◌≡◌, refl, Bool, true, false, not, ◌&&◌, ◌||◌, List, [], ◌∷◌, ◌++◌, Result, ok, err, ◌==◌,
  if◌then◌else◌, arith,
}
use goxot.X25.Packet.{get_lci, get_packet_type, clear_confirm}
use goxot.Xot.{
  XotError, too_long, no_connection, end_of_input, bad_version, wrong_length, small_buffer,
}
use goxot.Bridge.Relay.{
  Relay, Event, near_read, far_read, tick, both_returned, keeper_returned, main_quits, shut_down,
  is_clear, send_near, send_far, near_packet, far_packet, outcome, near_result, far_result,
  read_error, probe, keepalive_tick, handle, run, is_over,
}

-- A round that ends the call: a failed read, a CLEAR_CONF of the call's LCI, the return of both
-- threads, an unanswered probe, or the end of the process.
unfoldable pub ends_call : Relay → Event → Bool
ends_call b (near_read (err e)) = b.near_reads
ends_call b (near_read (ok packet)) =
    b.near_reads && get_lci packet == b.lci && get_packet_type packet == clear_confirm
ends_call b (far_read (err e)) = b.far_reads
ends_call b (far_read (ok packet)) =
    b.far_reads && get_lci packet == b.lci && get_packet_type packet == clear_confirm
ends_call b (tick idle) = b.keeps && b.established && idle && b.probe_in_flight
ends_call b both_returned = not b.near_reads && not b.far_reads
ends_call b shut_down = true
ends_call b _ = false

unfoldable pub has_near : List Event → Bool
has_near [] = false
has_near (near_read r ∷ events) = true
has_near (e ∷ events) = has_near events

unfoldable pub has_far : List Event → Bool
has_far [] = false
has_far (far_read r ∷ events) = true
has_far (e ∷ events) = has_far events

unfoldable pub has_keeper : List Event → Bool
has_keeper [] = false
has_keeper (keeper_returned ∷ events) = true
has_keeper (e ∷ events) = has_keeper events

-- Nothing of the end of a call is taken back.
abbrev Later : Relay → Relay → Type 0
Later b b' =
    ((b.quit || b.closed) ≡ true → (b'.quit || b'.closed) ≡ true)
    × (b.closed ≡ true → b'.closed ≡ true)
    × (b.near_reads ≡ false → b'.near_reads ≡ false)
    × (b.far_reads ≡ false → b'.far_reads ≡ false)
    × (b.keeps ≡ false → b'.keeps ≡ false)

read_error_same :
    (b : Relay) (e : XotError)
    → ((read_error b e).closed ≡ b.closed)
      × ((read_error b e).near_reads ≡ b.near_reads)
      × ((read_error b e).far_reads ≡ b.far_reads)
      × ((read_error b e).keeps ≡ b.keeps)
unfolding read_error send_near
read_error_same b (too_long head) = (refl, refl, refl, refl)
read_error_same b no_connection = (refl, refl, refl, refl)
read_error_same b end_of_input = (refl, refl, refl, refl)
read_error_same b (bad_version n) = (refl, refl, refl, refl)
read_error_same b (wrong_length n m) = (refl, refl, refl, refl)
read_error_same b (small_buffer n m) = (refl, refl, refl, refl)

near_packet-Later : (b : Relay) (packet : List ℕ) → Later b (near_packet b packet)
unfolding near_packet send_far
near_packet-Later b packet = ground arith

far_packet-Later : (b : Relay) (packet : List ℕ) → Later b (far_packet b packet)
unfolding far_packet send_near
far_packet-Later b packet = ground arith

near_result-Later : (b : Relay) (r : Result XotError (List ℕ)) → Later b (near_result b r)
unfolding near_result
near_result-Later b (ok packet) = near_packet-Later b packet
near_result-Later b (err e) =
    let (c, n, f, k) = read_error_same b e in
    (λ h. refl, λ h. rw c h, λ h. refl, λ h. rw f h, λ h. rw k h)

far_result-Later : (b : Relay) (r : Result XotError (List ℕ)) → Later b (far_result b r)
unfolding far_result
far_result-Later b (ok packet) = far_packet-Later b packet
far_result-Later b (err e) =
    let (c, n, f, k) = read_error_same b e in
    (λ h. refl, λ h. rw c h, λ h. rw n h, λ h. refl, λ h. rw k h)

same-Later : (b : Relay) → Later b b
same-Later b = (λ h. h, λ h. h, λ h. h, λ h. h, λ h. h)

if-Later : (t : Bool) (a b b' : Relay) → Later a b → Later a b' → Later a (if t then b else b')
if-Later true a b b' h k = h
if-Later false a b b' h k = k

handle-Later : (b : Relay) (e : Event) → Later b (handle b e)
unfolding handle keepalive_tick probe send_far send_near
handle-Later b (near_read r) =
    if-Later b.near_reads b _ b (near_result-Later b (outcome b r)) (same-Later b)
handle-Later b (far_read r) =
    if-Later b.far_reads b _ b (far_result-Later b (outcome b r)) (same-Later b)
handle-Later b (tick idle) = ground arith
handle-Later b both_returned = ground arith
handle-Later b keeper_returned = ground arith
handle-Later b main_quits = ground arith
handle-Later b shut_down = ground arith

read_ends :
    (b : Relay) (e : Event)
    → ends_call b e ≡ true
    → ((handle b e).quit || (handle b e).closed) ≡ true
unfolding ends_call handle near_result far_result near_packet far_packet outcome send_near send_far
    is_clear keepalive_tick
read_ends b (near_read (ok packet)) h = ground arith
read_ends b (near_read (err e)) h = ground arith
read_ends b (far_read (ok packet)) h = ground arith
read_ends b (far_read (err e)) h = ground arith
read_ends b (tick idle) h = ground arith
read_ends b both_returned h = ground arith
read_ends b keeper_returned h = ground arith
read_ends b main_quits h = ground arith
read_ends b shut_down h = ground arith

-- Behind the close, a round of a thread is its last.
returns :
    (b : Relay) (r : Result XotError (List ℕ))
    → b.closed ≡ true
    → ((handle b (near_read r)).near_reads ≡ false)
      × ((handle b (far_read r)).far_reads ≡ false)
      × ((handle b keeper_returned).keeps ≡ false)
unfolding handle outcome near_result far_result
returns b r h = ground arith

run-ended :
    (events : List Event) (b : Relay)
    → (b.quit || b.closed) ≡ true
    → ((run b events).quit || (run b events).closed) ≡ true
unfolding run
run-ended [] b h = h
run-ended (e ∷ events) b h = run-ended events (handle b e) ((handle-Later b e).0 h)

-- What is still to return has a round in `events`.
abbrev Covered : Relay → List Event → Type 0
Covered b events =
    ((b.near_reads && not (has_near events)) ≡ false)
    × ((b.far_reads && not (has_far events)) ≡ false)
    × ((b.keeps && not (has_keeper events)) ≡ false)

stay :
    (b : Relay) (e : Event) (events : List Event)
    → b.closed ≡ true
    → Covered b (e ∷ events)
    → Covered (handle b e) events
unfolding has_near has_far has_keeper
stay b (near_read r) events c h = ground (arith, handle-Later b (near_read r), returns b r c)
stay b (far_read r) events c h = ground (arith, handle-Later b (far_read r), returns b r c)
stay b (tick idle) events c h = ground (arith, handle-Later b (tick idle))
stay b both_returned events c h = ground (arith, handle-Later b both_returned)
stay b keeper_returned events c h =
    ground (arith, handle-Later b keeper_returned, returns b (err no_connection) c)
stay b main_quits events c h = ground (arith, handle-Later b main_quits)
stay b shut_down events c h = ground (arith, handle-Later b shut_down)

-- After the close, what has returned stays so, and what has a round returns.
run-is_over :
    (events : List Event) (b : Relay)
    → b.closed ≡ true
    → Covered b events
    → is_over (run b events) ≡ true
unfolding run is_over has_near has_far has_keeper
run-is_over [] b c h = ground arith
run-is_over (e ∷ events) b c h =
    run-is_over events (handle b e) ((handle-Later b e).1 c) (stay b e events c h)

closes : (b : Relay) → (b.quit || b.closed) ≡ true → (handle b main_quits).closed ≡ true
unfolding handle
closes b h = ground arith

run-append :
    (events more : List Event) (b : Relay) → run b (events ++ more) ≡ run (run b events) more
unfolding run
run-append [] more b = refl
run-append (e ∷ events) more b = run-append events more (handle b e)

-- A call that ends, by a failed read, by a CLEAR_CONF of its LCI, when both threads have returned, by
-- an unanswered probe or with the process, is over for every thread as soon as the main thread has
-- had its turn and then, in any order and among whatever else happens, each reader and the keepalive
-- has had one: the connections are closed and all have returned.
pub run_ends :
    (b : Relay) (e : Event) (before after : List Event)
    → ends_call b e ≡ true
    → has_near after ≡ true
    → has_far after ≡ true
    → has_keeper after ≡ true
    → is_over (run b (e ∷ before ++ main_quits ∷ after)) ≡ true
unfolding run
run_ends b e before after ends near far keeper =
    let c = closes (run (handle b e) before) (run-ended before (handle b e) (read_ends b e ends)) in
    rw (run-append before (main_quits ∷ after) (handle b e))
      (run-is_over after _ c (ground (arith, near), ground (arith, far), ground (arith, keeper)))
