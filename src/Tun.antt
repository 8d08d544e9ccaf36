-- ===== src/Tun.antt =====
-- src/tun/tun.go, ReadFrame and WriteFrame: the PI header in front of the packets of a TUN
-- interface. `reads` are the datagrams that are left to read; the counters are left out.
pub mod RoundTrip
use goxot.Base.{
  ℕ, ◌+◌, ◌*◌, Bool, true, false, not, List, [], ◌∷◌, Option, none, some, ltb, ◌==◌, if◌then◌else◌,
  length, take, drop, get_or,
}

-- The frame's control header, its payload, and the datagrams that are left. `none`: the read
-- failed. A datagram that is longer than the buffer loses its end.
unfoldable pub read_frame : ℕ → List (List ℕ) → Option (ℕ × List ℕ × List (List ℕ))
read_frame size [] = none
read_frame size (datagram ∷ reads) =
    let got = take size datagram in
    let rest = read_frame size reads in
    if ltb (length got) 4
    then rest
    else if not (get_or got 2 0 * 256 + get_or got 3 0 == 0x0805)
    then rest
    else if ltb (length got) 5
    then rest
    else some (get_or got 4 0, drop 5 got, reads)

-- `written` tells how many bytes the interface took, or that it failed. The datagram, and whether
-- the error is nil.
unfoldable pub write_frame_into : (List ℕ → Option ℕ) → ℕ → List ℕ → List ℕ × Bool
write_frame_into written control bytes =
    let frame = 0x00 ∷ 0x00 ∷ 0x08 ∷ 0x05 ∷ control ∷ bytes in
    elim (written frame) [ none ↦ ([], false) | some n ↦ (take n frame, n == length frame) ]
