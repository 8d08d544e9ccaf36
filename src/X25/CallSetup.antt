-- ===== src/X25/CallSetup.antt =====
-- src/x25.go, the payload of a call setup packet: ParseCallRequest, ParseCallConnected and the
-- rebuilding of the payload in InjectFacilities.
pub mod RoundTrip
pub mod Inject
use goxot.Base.{
  ℕ, ◌+◌, ◌*◌, ◌/◌, ◌%◌, ◌^◌, bit_and, bit_or, List, [], ◌∷◌, ◌++◌, Result, ok, err, ltb, ◌==◌,
  if◌then◌else◌, length, take, drop, replicate,
}
use goxot.Base.Bits.{shr}
use goxot.Base.Maps.{Map}
use goxot.X25.Packet.{
  X25Packet, Error, wrong_type, payload_too_short, addresses_too_short, facilities_too_short,
  call_request, call_connected,
}
use goxot.X25.Address.{encode, decode}
use goxot.X25.Facilities.{parse_facilities, merge_facilities, encode_facilities}

-- The values that both parsers return. An absent (nil) slice is the empty list.
pub record CallFields : Type 0 where
  pub called : List ℕ
  pub calling : List ℕ
  pub facilities : List ℕ
  pub user_data : List ℕ

-- What follows the addresses, from the index `offset` of the payload on.
parse_tail : List ℕ → List ℕ → ℕ → List ℕ → Result Error CallFields
parse_tail called calling offset [] =
    ok (record { called = called; calling = calling; facilities = []; user_data = [] })
parse_tail called calling offset (fac_len ∷ rest) =
    if ltb (length rest) fac_len
    then err (facilities_too_short called calling (offset + 1 + fac_len) (offset + 1 + length rest))
    else ok (record {
      called = called;
      calling = calling;
      facilities = take fac_len rest;
      user_data = drop fac_len rest;
    })

-- The payload behind its first byte, with the two address lengths from that byte.
parse_body : ℕ → ℕ → List ℕ → Result Error CallFields
unfolding parse_tail
parse_body called_len calling_len body =
    let total = (called_len + calling_len + 1) / 2 in
    if ltb (length body) total
    then err (addresses_too_short (1 + total) (1 + length body))
    else parse_tail (decode (take total body) called_len 0)
        (decode (take total body) calling_len called_len) (1 + total) (drop total body)

unfoldable pub parse_payload : List ℕ → Result Error CallFields
unfolding parse_body
parse_payload [] = err (payload_too_short 0)
parse_payload (addr_lens ∷ body) = parse_body (bit_and addr_lens 0x0f) (shr addr_lens 4) body

unfoldable pub parse_call_request : X25Packet → Result Error CallFields
parse_call_request p = if p.type == call_request then parse_payload p.payload else err wrong_type

unfoldable pub parse_call_connected : X25Packet → Result Error CallFields
parse_call_connected p =
    if p.type == call_connected then parse_payload p.payload else err wrong_type

-- The payload that InjectFacilities builds. The lengths of addresses and facilities are cut to
-- the bits that the format has for them.
unfoldable pub build_payload : List ℕ → List ℕ → List ℕ → List ℕ → List ℕ
build_payload called calling fac user_data =
    let total = (length called + length calling + 1) / 2 in
    let addr_data = encode calling (length called) (encode called 0 (replicate total 0)) in
    (bit_or (length calling * 16) (bit_and (length called) 0x0f) % 256)
    ∷ (addr_data ++ ((length fac % 256) ∷ (fac ++ user_data)))

-- `new` is a range over the configured facilities, and `range` the order in which the updated
-- map is written back.
module _ (range : Map ℕ (List ℕ) → Map ℕ (List ℕ)) where
  unfoldable pub new_facilities : List (List ℕ × List ℕ) → List ℕ → List ℕ
  new_facilities new fac = encode_facilities (range (merge_facilities new (parse_facilities fac)))

  rebuild : X25Packet → List (List ℕ × List ℕ) → Result Error CallFields → Result Error X25Packet
  unfolding new_facilities
  rebuild p new (err e) = err e
  rebuild p new (ok f) = ok (record p {
    payload = build_payload f.called f.calling (new_facilities new f.facilities) f.user_data;
  })

  unfoldable pub inject_facilities : List (List ℕ × List ℕ) → X25Packet → Result Error X25Packet
  unfolding rebuild
  inject_facilities new p =
      if p.type == call_request then rebuild p new (parse_call_request p) else err wrong_type
