-- ===== src/Tun/RoundTrip.antt =====
-- src/tun/tun.go: what WriteFrame writes is what ReadFrame reads.
use goxot.Base.{
  ℕ, ◌+◌, ◌*◌, ◌≤◌, ◌<◌, ◌≢◌, ◌∙◌, inl, inr, ◌≡◌, true, List, [], ◌∷◌, ◌++◌, some, length, take,
  get_or, arith, All, take_all, ◌⊎◌,
}
use goxot.Tun.{read_frame, write_frame_into}

-- A datagram that ReadFrame passes over: it is too short for the two headers, or of another
-- protocol than X.25.
unfoldable pub IsForeign : List ℕ → Type 0
IsForeign got = (length got < 5) ⊎ (get_or got 2 0 * 256 + get_or got 3 0 ≢ 0x0805)

read_frame_foreign :
    (size : ℕ) (d : List ℕ) (reads : List (List ℕ))
    → IsForeign (take size d)
    → read_frame size (d ∷ reads) ≡ read_frame size reads
unfolding read_frame IsForeign
read_frame_foreign size d reads (inl h) = ground arith
read_frame_foreign size d reads (inr h) = ground arith

read_frame_own :
    (size control : ℕ) (payload : List ℕ) (reads : List (List ℕ))
    → 5 + length payload ≤ size
    → read_frame size ((0x00 ∷ 0x00 ∷ 0x08 ∷ 0x05 ∷ control ∷ payload) ∷ reads)
      ≡ some (control, payload, reads)
unfolding read_frame
read_frame_own size control payload reads h =
    rw (take_all size (0x00 ∷ 0x00 ∷ 0x08 ∷ 0x05 ∷ control ∷ payload) (omega arith)) (ground arith)

-- A frame that an interface takes whole is read back as its control header and its payload, by a
-- reader whose buffer has room for it, whatever datagrams of other protocols stand before it, and
-- the datagrams behind it stay unread.
pub read_frame-write_frame_into :
    (size control : ℕ) (payload : List ℕ) (foreign reads : List (List ℕ))
    → 5 + length payload ≤ size
    → All (λ d. IsForeign (take size d)) foreign
    → (datagram : List ℕ) × (write_frame_into (λ frame. some (length frame)) control payload
        ≡ (datagram, true))
      × (read_frame size (foreign ++ (datagram ∷ reads)) ≡ some (control, payload, reads))
unfolding write_frame_into
read_frame-write_frame_into size control payload foreign reads h f = (
  0x00 ∷ 0x00 ∷ 0x08 ∷ 0x05 ∷ control ∷ payload,
  rw (take_all (length payload) payload (omega arith)) (ground arith),
  read_behind foreign f,
)
  where
    read_behind :
        (ds : List (List ℕ))
        → All (λ d. IsForeign (take size d)) ds
        → read_frame size (ds ++ ((0x00 ∷ 0x00 ∷ 0x08 ∷ 0x05 ∷ control ∷ payload) ∷ reads))
          ≡ some (control, payload, reads)
    read_behind [] f' = read_frame_own size control payload reads h
    read_behind (d ∷ ds) f' = read_frame_foreign size d _ f'.0 ∙ read_behind ds f'.1
