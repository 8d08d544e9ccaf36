-- ===== src/Xot/RoundTrip.antt =====
-- src/xot.go: what SendXot writes is what ReadXotInto reads.
use goxot.Base.{
  ℕ, ◌+◌, ◌*◌, ◌/◌, ◌%◌, ◌^◌, ◌≤◌, ◌≡◌, refl, ap, ◌∙◌, Bool, true, false, List, [], ◌∷◌, ◌++◌, some,
  ok, ltb, Bool-cases, ◌⊎◌, inl, inr, length, arith, length-append, take_all, take-append_length,
  drop-append_length,
}
use goxot.Xot.{
  packet_conn, stream_conn, send_xot, read_xot_into, header, send_whole, send_parts, read_body,
  read_message, read_full, read_stream,
}

pub concat : List (List ℕ) → List ℕ
concat [] = []
concat (w ∷ writes) = w ++ concat writes

send_whole_lem :
    (bytes : List ℕ) (write : List ℕ → Bool)
    → ((w : List ℕ) → write w ≡ true)
    → length bytes ≤ 4107
    → send_whole write bytes (length bytes % 2 ^ 16)
      ≡ some ((header (length bytes) ++ bytes) ∷ [], true)
unfolding send_whole
send_whole_lem bytes write w h =
    let e : length bytes % 2 ^ 16 ≡ length bytes = omega arith in
    let f : (4 + length bytes) % 2 ^ 16 ≡ 4 + length bytes = omega arith in
    rw (e, f, take_all (4 + length bytes) (header (length bytes) ++ bytes) (omega arith))
      (ground (arith, w (header (length bytes) ++ bytes)))

send_parts_lem :
    (bytes : List ℕ) (write : List ℕ → Bool)
    → ((w : List ℕ) → write w ≡ true)
    → length bytes ≤ 4107
    → some (send_parts write bytes (length bytes % 2 ^ 16))
      ≡ some (header (length bytes) ∷ bytes ∷ [], true)
unfolding send_parts
send_parts_lem bytes write w h =
    let e : length bytes % 2 ^ 16 ≡ length bytes = omega arith in
    rw (e, w (header (length bytes)), w bytes) refl

end_of : (bytes rest : List ℕ) → (bytes ++ []) ++ rest ≡ bytes ++ rest
end_of [] rest = refl
end_of (b ∷ bytes) rest = ap (λ t. b ∷ t) (end_of bytes rest)

read_message_lem :
    (bytes : List ℕ)
    → length bytes ≤ 4107
    → read_message (header (length bytes) ++ bytes) (length (header (length bytes) ++ bytes))
      ≡ ok bytes
unfolding read_message
read_message_lem bytes h = ground (arith)

read_body_lem :
    (bytes rest buf : List ℕ)
    → length bytes ≤ 4107
    → 4107 ≤ length buf
    → read_body buf (length bytes) (bytes ++ rest) ≡ some (ok bytes, stream_conn rest)
unfolding read_full read_body
read_body_lem bytes rest buf h hb =
    ground (
      arith,
      length-append bytes rest,
      take-append_length bytes rest,
      drop-append_length bytes rest,
    )

read_stream_lem :
    (bytes rest buf : List ℕ)
    → length bytes ≤ 4107
    → 4107 ≤ length buf
    → read_stream buf (header (length bytes) ++ (bytes ++ rest)) ≡ some (ok bytes, stream_conn rest)
unfolding read_stream read_full
read_stream_lem bytes rest buf h hb =
    let e : length bytes / 256 % 256 * 256 + length bytes % 256 ≡ length bytes = omega arith in
    ground (arith, e, read_body_lem bytes rest buf h hb)

-- A packet of 4107 bytes at most, sent on a unixpacket socket whose write succeeds, is one message,
-- and its reader, with a buffer for the longest message, gets the packet and keeps the messages
-- behind it.
pub read_xot_into-send_xot_packet :
    (bytes buf : List ℕ) (inbox : List (List ℕ)) (write : List ℕ → Bool)
    → ((w : List ℕ) → write w ≡ true)
    → length bytes ≤ 4107
    → 4111 ≤ length buf
    → (message : List ℕ) × (send_xot (packet_conn inbox) write bytes ≡ some (message ∷ [], true))
      × (read_xot_into (packet_conn (message ∷ inbox)) buf ≡ some (ok bytes, packet_conn inbox))
unfolding send_xot read_xot_into
read_xot_into-send_xot_packet bytes buf inbox write w h hb = (
  header (length bytes) ++ bytes,
  send_whole_lem bytes write w h,
  ap (λ m. some (read_message m (length m), packet_conn inbox))
        (take_all (length buf) (header (length bytes) ++ bytes) (omega (arith, hb)))
      ∙ ap (λ q. some (q, packet_conn inbox)) (read_message_lem bytes h),
)

-- A packet of 4107 bytes at most, sent on a stream whose writes succeed: a reader, with a buffer
-- for the longest packet, gets the packet from the bytes that were written, and the bytes behind
-- them stay unread, so the two ends agree on where the next packet starts.
pub read_xot_into-send_xot_stream :
    (bytes rest buf input : List ℕ) (write : List ℕ → Bool)
    → ((w : List ℕ) → write w ≡ true)
    → length bytes ≤ 4107
    → 4107 ≤ length buf
    → (writes : List (List ℕ)) × (send_xot (stream_conn input) write bytes ≡ some (writes, true))
      × (read_xot_into (stream_conn (concat writes ++ rest)) buf
          ≡ some (ok bytes, stream_conn rest))
unfolding send_xot read_xot_into concat
read_xot_into-send_xot_stream bytes rest buf input write w h hb =
    sent (Bool-cases (ltb (length bytes % 2 ^ 16) 4096))
  where
    sent :
        (ltb (length bytes % 2 ^ 16) 4096 ≡ true) ⊎ (ltb (length bytes % 2 ^ 16) 4096 ≡ false)
        → (writes : List (List ℕ)) × (send_xot (stream_conn input) write bytes
            ≡ some (writes, true))
          × (read_xot_into (stream_conn (concat writes ++ rest)) buf
              ≡ some (ok bytes, stream_conn rest))
    sent (inl e) = (
      (header (length bytes) ++ bytes) ∷ [],
      rw e (send_whole_lem bytes write w h),
      rw (end_of bytes rest) (read_stream_lem bytes rest buf h hb),
    )
    sent (inr e) = (
      header (length bytes) ∷ bytes ∷ [],
      rw e (send_parts_lem bytes write w h),
      rw (end_of bytes rest) (read_stream_lem bytes rest buf h hb),
    )
