-- ===== src/Xot.antt =====
-- src/xot.go, SendXot, ReadXotInto and ReadXot: the RFC 1613 framing of X.25 packets.
-- A connection is what is left to read on it: the messages of a unixpacket socket, or the bytes of
-- a stream up to its end. A write that fails writes nothing. The pools and the counters are left
-- out; a buffer is the bytes that it holds.
pub mod RoundTrip
use goxot.Base.{
  ℕ, ◌+◌, ◌*◌, ◌-◌, ◌/◌, ◌%◌, ◌^◌, Bool, true, false, not, ◌||◌, List, [], ◌∷◌, ◌++◌, Option, none,
  some, Result, ok, err, ltb, ◌==◌, if◌then◌else◌, length, take, drop, get_or,
}
use goxot.X25.Packet.{max_x25_packet_size, max_xot_packet_size}

pub data Conn : Type 0 where
  no_conn : Conn
  packet_conn : List (List ℕ) → Conn
  stream_conn : List ℕ → Conn

pub data XotError : Type 0 where
  no_connection end_of_input : XotError
  bad_version : ℕ → XotError
  too_long : List ℕ → XotError
  wrong_length small_buffer : ℕ → ℕ → XotError

abbrev pub xot_version : ℕ
xot_version = 0

-- binary.BigEndian.PutUint16 and Uint16
abbrev pub put_uint16 : ℕ → List ℕ
put_uint16 v = v / 256 % 256 ∷ v % 256 ∷ []

abbrev pub uint16_at : List ℕ → ℕ → ℕ
uint16_at buf i = get_or buf i 0 * 256 + get_or buf (i + 1) 0

abbrev pub header : ℕ → List ℕ
header len = put_uint16 xot_version ++ put_uint16 len

is_packet_conn : Conn → Bool
is_packet_conn (packet_conn _) = true
is_packet_conn _ = false

-- One buffer: its end, 4 + length, is a uint16, and a slice above the buffer's capacity panics.
send_whole : (List ℕ → Bool) → List ℕ → ℕ → Option (List (List ℕ) × Bool)
send_whole write bytes len =
    let end = (4 + len) % 2 ^ 16 in
    let message = take end (header len ++ bytes) in
    if ltb max_xot_packet_size end
    then none
    else some (if write message then (message ∷ [], true) else ([], false))

send_parts : (List ℕ → Bool) → List ℕ → ℕ → List (List ℕ) × Bool
send_parts write bytes len =
    if not (write (header len))
    then ([], false)
    else if write bytes
    then (header len ∷ bytes ∷ [], true)
    else (header len ∷ [], false)

-- `write` tells whether a write succeeds. The writes that were done, and whether the error is nil.
unfoldable pub send_xot : Conn → (List ℕ → Bool) → List ℕ → Option (List (List ℕ) × Bool)
unfolding is_packet_conn send_whole send_parts
send_xot no_conn write bytes = some ([], false)
send_xot conn write bytes =
    let len = length bytes % 2 ^ 16 in
    if is_packet_conn conn || ltb len 4096
    then send_whole write bytes len
    else some (send_parts write bytes len)

-- What a message of `n` bytes gives, read into the buffer.
read_message : List ℕ → ℕ → Result XotError (List ℕ)
read_message got n =
    if ltb n 4
    then err end_of_input
    else if not (uint16_at got 0 == xot_version)
    then err (bad_version (uint16_at got 0))
    else if ltb max_x25_packet_size (uint16_at got 2)
    then err (too_long (drop 4 got))
    else if not (uint16_at got 2 == n - 4)
    then err (wrong_length (uint16_at got 2) (n - 4))
    else ok (drop 4 got)

-- io.ReadFull: the bytes, or an error when the stream ends before.
read_full : ℕ → List ℕ → Option (List ℕ)
read_full n input = if ltb (length input) n then none else some (take n input)

-- The packet behind a header. The first three bytes of the buffer are returned with a packet that
-- is too long, whether they could be read or not.
read_body : List ℕ → ℕ → List ℕ → Option (Result XotError (List ℕ) × Conn)
read_body buf len input =
    if ltb max_x25_packet_size len
    then (if ltb (length buf) 3
        then none
        else some (
          err (too_long (take 3 (take 3 input ++ drop (length (take 3 input)) buf))),
          stream_conn (drop 3 input),
        ))
    else if ltb (length buf) len
    then some (err (small_buffer len (length buf)), stream_conn input)
    else elim (read_full len input) [
      | none ↦ some (err end_of_input, stream_conn [])
      | some bytes ↦ some (ok bytes, stream_conn (drop len input))
    ]

read_stream : List ℕ → List ℕ → Option (Result XotError (List ℕ) × Conn)
unfolding read_full read_body
read_stream buf input = elim (read_full 4 input) [
  | none ↦ some (err end_of_input, stream_conn [])
  | some head ↦
      (if not (uint16_at head 0 == xot_version)
        then some (err (bad_version (uint16_at head 0)), stream_conn (drop 4 input))
        else read_body buf (uint16_at head 2) (drop 4 input))
]

-- `none`: a slice is out of range. A message that is longer than the buffer loses its end.
unfoldable pub read_xot_into : Conn → List ℕ → Option (Result XotError (List ℕ) × Conn)
unfolding read_message read_stream
read_xot_into no_conn buf = some (err no_connection, no_conn)
read_xot_into (packet_conn []) buf = some (err end_of_input, packet_conn [])
read_xot_into (packet_conn (message ∷ inbox)) buf = some (
  read_message (take (length buf) message) (length (take (length buf) message)),
  packet_conn inbox,
)
read_xot_into (stream_conn input) buf = read_stream buf input

-- ReadXot gives no data with an error.
without_data : XotError → XotError
without_data (too_long head) = too_long []
without_data e = e

-- `pooled` is the buffer that the pool gives.
unfoldable pub read_xot : List ℕ → Conn → Option (Result XotError (List ℕ) × Conn)
unfolding without_data
read_xot pooled conn = elim (read_xot_into conn pooled) [
  | none ↦ none
  | some (ok bytes, conn') ↦ some (ok bytes, conn')
  | some (err e, conn') ↦ some (err (without_data e), conn')
]
