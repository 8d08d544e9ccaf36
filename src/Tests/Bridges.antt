-- ===== src/Tests/Bridges.antt =====
-- src/cmd/xot-server/main.go and src/cmd/xot-gateway/main.go at concrete inputs: one call, its relay
-- and its end.
use goxot.Base.{ℕ, ◌≡◌, refl, true, List, [], ◌∷◌, ◌++◌, ok, arith, All}
use goxot.X25.Packet.{get_lci, get_packet_type}
use goxot.Bridge.Relay.{
  Event, near_read, far_read, tick, keeper_returned, main_quits, new_relay, run, is_over,
}
use goxot.Bridge.Relay.Channels.{IsRelaying, passed, near_packets, far_packets, run_passes}
use goxot.Bridge.Relay.Shape.{OnLci, Balanced, run-OnLci}
use goxot.Bridge.Relay.Ends.{ends_call, has_near, has_far, has_keeper, run_ends}

-- A call on LCI 5, its answer, a packet of data, one of another LCI, and the two CLEARs.
abbrev call_bytes : List ℕ
call_bytes = 0x10 ∷ 0x05 ∷ 0x0B ∷ 0x02 ∷ 0x34 ∷ 0 ∷ []

abbrev connected_bytes : List ℕ
connected_bytes = 0x10 ∷ 0x05 ∷ 0x0F ∷ []

abbrev data_bytes : List ℕ
data_bytes = 0x10 ∷ 0x05 ∷ 0x00 ∷ 0x41 ∷ []

abbrev stray_bytes : List ℕ
stray_bytes = 0x10 ∷ 0x06 ∷ 0x00 ∷ 0x41 ∷ []

abbrev clear_bytes : List ℕ
clear_bytes = 0x10 ∷ 0x05 ∷ 0x13 ∷ 0 ∷ 0 ∷ []

abbrev confirm_bytes : List ℕ
confirm_bytes = 0x10 ∷ 0x05 ∷ 0x17 ∷ []

abbrev talk : List Event
talk =
    far_read (ok connected_bytes)
    ∷ near_read (ok stray_bytes)
    ∷ near_read (ok data_bytes)
    ∷ near_read (ok clear_bytes)
    ∷ []

talk-IsRelaying : All IsRelaying talk
unfolding IsRelaying
talk-IsRelaying = (tt, (tt, (tt, (tt, tt))))

run_passes_example :
    ((run (new_relay 1 5 true call_bytes) talk).to_far ≡ call_bytes ∷ passed 5 (near_packets talk))
    × ((run (new_relay 1 5 true call_bytes) talk).to_near ≡ passed 5 (far_packets talk))
run_passes_example = run_passes 1 5 true call_bytes talk talk-IsRelaying

call_lci : get_lci call_bytes ≡ 5
unfolding get_lci
call_lci = refl

-- A probe is sent and answered.
abbrev probed : List Event
probed =
    far_read (ok connected_bytes)
    ∷ tick true
    ∷ far_read (ok (0x10 ∷ 0x05 ∷ 0x27 ∷ []))
    ∷ tick true
    ∷ []

run-OnLci_example :
    All (OnLci 5) (run (new_relay 1 5 true call_bytes) probed).to_far
    × Balanced (run (new_relay 1 5 true call_bytes) probed)
run-OnLci_example = run-OnLci 1 5 true call_bytes probed (omega arith) (omega arith) call_lci

abbrev ending : List Event
ending = near_read (ok data_bytes) ∷ keeper_returned ∷ far_read (ok data_bytes) ∷ []

confirm_ends : ends_call (new_relay 1 5 true call_bytes) (far_read (ok confirm_bytes)) ≡ true
unfolding ends_call new_relay get_lci get_packet_type
confirm_ends = refl

ending_near : has_near ending ≡ true
unfolding has_near
ending_near = refl

ending_far : has_far ending ≡ true
unfolding has_far
ending_far = refl

ending_keeper : has_keeper ending ≡ true
unfolding has_keeper
ending_keeper = refl

run_ends_example :
    is_over (
      run
        (new_relay 1 5 true call_bytes)
        (far_read (ok confirm_bytes) ∷ (near_read (ok data_bytes) ∷ []) ++ main_quits ∷ ending))
    ≡ true
run_ends_example =
    run_ends (new_relay 1 5 true call_bytes) (far_read (ok confirm_bytes))
      (near_read (ok data_bytes) ∷ []) ending confirm_ends ending_near ending_far ending_keeper
