-- ===== src/Tests/Packets.antt =====
-- src/x25.go, src/xot.go and src/tun/tun.go at concrete inputs.
use goxot.Base.{
  ℕ, ◌<◌, ◌≡◌, refl, true, List, [], ◌∷◌, ◌++◌, some, ok, length, take, drop, replicate, All, arith,
  inl, inr, codes,
}
use mathlib.Core.Option.{or_else}
use goxot.Base.Bits.{IsByte}
use goxot.Base.Maps.{ℕ_key, Map, lookup, insert}
use goxot.Base.Maps.Order.{Distinct}
use goxot.Base.Hex.{decode_hex, from_hex_char}
use goxot.X25.Packet.{X25Packet, parse_x25, serialize, remap_lci, get_lci, get_gfi, get_packet_type}
use goxot.X25.Packet.Header.{IsValid, parse_x25-serialize, serialize-parse_x25, remap_lci_fields}
use goxot.X25.Names.{type_name, get_packet_type_name}
use goxot.X25.Names.Agree.{type_name-get_packet_type_name}
use goxot.X25.Address.{decode, hex_digit, nibble_at}
use goxot.X25.Address.RoundTrip.{canonical}
use goxot.X25.Facilities.{
  read_facilities, take_value, parse_facilities, encode_facilities, merge_facilities,
}
use goxot.X25.Facilities.RoundTrip.{IsFacility, parse_facilities-encode_facilities}
use goxot.X25.Facilities.Valid.{
  setting, settings, requested, IsSetting, parse_facilities-Valid, lookup-merge_facilities,
}
use goxot.X25.CallSetup.{
  CallFields, parse_payload, build_payload, parse_call_request, new_facilities, inject_facilities,
}
use goxot.X25.CallSetup.RoundTrip.{parse_payload-build_payload}
use goxot.X25.CallSetup.Inject.{inject_facilities_lem}
use goxot.Xot.{packet_conn, stream_conn, send_xot, read_xot_into}
use goxot.Xot.RoundTrip.{concat, read_xot_into-send_xot_stream, read_xot_into-send_xot_packet}
use goxot.Tun.{read_frame, write_frame_into}
use goxot.Tun.RoundTrip.{IsForeign, read_frame-write_frame_into}

abbrev call_payload : List ℕ
call_payload = 0x23 ∷ 0x12 ∷ 0x34 ∷ 0x50 ∷ 3 ∷ 0x42 ∷ 7 ∷ 7 ∷ 0x01 ∷ []

abbrev call : X25Packet
call = record { gfi = 1; lci = 300; type = 0x0B; payload = call_payload }

abbrev call_bytes : List ℕ
call_bytes = 0x11 ∷ 0x2C ∷ 0x0B ∷ call_payload

abbrev new_settings : List (List ℕ × List ℕ)
new_settings = (codes "42", codes "0808") ∷ (codes "C9", codes "0102") ∷ []

abbrev fields : CallFields
fields = record {
  called = codes "123";
  calling = codes "45";
  facilities = 0x42 ∷ 7 ∷ 7 ∷ [];
  user_data = 0x01 ∷ [];
}

payload_IsByte : All IsByte call_payload
payload_IsByte = (
  omega arith,
  (
    omega arith,
    (
      omega arith,
      (omega arith, (omega arith, (omega arith, (omega arith, (omega arith, (omega arith, tt)))))),
    ),
  ),
)

call_IsByte : All IsByte call_bytes
call_IsByte = (omega arith, (omega arith, (omega arith, payload_IsByte)))

call-IsValid : IsValid call
call-IsValid = record {
  gfi = omega arith;
  lci = omega arith;
  type = omega arith;
  payload = payload_IsByte;
}

parse_x25-serialize_example : parse_x25 (serialize call) ≡ ok call
parse_x25-serialize_example = parse_x25-serialize call call-IsValid

parsed_call : parse_x25 call_bytes ≡ ok call
unfolding parse_x25 get_gfi get_lci get_packet_type
parsed_call = refl

serialize-parse_x25_example : (serialize call ≡ call_bytes) × IsValid call
serialize-parse_x25_example = serialize-parse_x25 call_bytes call call_IsByte parsed_call

abbrev moved_bytes : List ℕ
moved_bytes = 0x14 ∷ 0x01 ∷ 0x0B ∷ call_payload

moved : remap_lci call_bytes 1025 ≡ some moved_bytes
unfolding remap_lci
moved = refl

remap_lci_fields_example :
    (get_lci moved_bytes ≡ 1025)
    × (get_gfi moved_bytes ≡ get_gfi call_bytes)
    × (get_packet_type moved_bytes ≡ get_packet_type call_bytes)
    × (length moved_bytes ≡ length call_bytes)
    × (drop 2 moved_bytes ≡ drop 2 call_bytes)
    × All IsByte moved_bytes
remap_lci_fields_example =
    remap_lci_fields call_bytes moved_bytes 1025 call_IsByte (omega arith) moved

type_name-get_packet_type_name_example : type_name call ≡ get_packet_type_name 0x0B
type_name-get_packet_type_name_example = type_name-get_packet_type_name call (omega arith)

abbrev two_facilities : Map ℕ (List ℕ)
two_facilities = (0x42, 7 ∷ 7 ∷ []) ∷ (0xC9, 1 ∷ 2 ∷ []) ∷ []

two_facilities-Distinct : Distinct two_facilities
unfolding lookup
two_facilities-Distinct = (refl, (refl, tt))

parse_facilities-encode_facilities_example :
    parse_facilities (encode_facilities two_facilities) ≡ two_facilities
parse_facilities-encode_facilities_example =
    parse_facilities-encode_facilities two_facilities two_facilities-Distinct
      ((omega arith, inr (omega arith, refl)), ((omega arith, inl (omega arith, omega arith)), tt))

parse_facilities-Valid_example :
    All IsFacility (parse_facilities (0x42 ∷ 7 ∷ 7 ∷ []))
    × Distinct (parse_facilities (0x42 ∷ 7 ∷ 7 ∷ []))
parse_facilities-Valid_example =
    parse_facilities-Valid (0x42 ∷ 7 ∷ 7 ∷ []) (omega arith, (omega arith, (omega arith, tt)))

parse_payload-build_payload_example :
    parse_payload (build_payload (codes "123") (codes "45") (0x42 ∷ 7 ∷ 7 ∷ []) (1 ∷ []))
    ≡ ok (record {
      called = canonical (codes "123");
      calling = canonical (codes "45");
      facilities = 0x42 ∷ 7 ∷ 7 ∷ [];
      user_data = 1 ∷ [];
    })
parse_payload-build_payload_example =
    parse_payload-build_payload (codes "123") (codes "45") (0x42 ∷ 7 ∷ 7 ∷ []) (1 ∷ [])
      (omega arith) (omega arith) (omega arith)

abbrev full_buffer : List ℕ
full_buffer = replicate 4111 0

read_xot_into-send_xot_stream_example :
    (writes : List (List ℕ)) × (send_xot (stream_conn []) (λ w. true) call_bytes
      ≡ some (writes, true))
    × (read_xot_into (stream_conn (concat writes ++ (0 ∷ []))) full_buffer
        ≡ some (ok call_bytes, stream_conn (0 ∷ [])))
read_xot_into-send_xot_stream_example =
    read_xot_into-send_xot_stream call_bytes (0 ∷ []) full_buffer [] (λ w. true) (λ w. refl)
      (omega arith) (omega arith)

IsForeign-reads : All (λ d. IsForeign (take 4112 d)) ((0 ∷ 0 ∷ []) ∷ [])
unfolding IsForeign
IsForeign-reads = (inl (omega arith), tt)

read_frame-write_frame_into_example :
    (datagram : List ℕ) × (write_frame_into (λ frame. some (length frame)) 0 call_bytes
      ≡ (datagram, true))
    × (read_frame 4112 (((0 ∷ 0 ∷ []) ∷ []) ++ (datagram ∷ [])) ≡ some (0, call_bytes, []))
read_frame-write_frame_into_example =
    read_frame-write_frame_into 4112 0 call_bytes ((0 ∷ 0 ∷ []) ∷ []) [] (omega arith)
      IsForeign-reads

read_xot_into-send_xot_packet_example :
    (message : List ℕ) × (send_xot (packet_conn []) (λ w. true) call_bytes
      ≡ some (message ∷ [], true))
    × (read_xot_into (packet_conn (message ∷ [])) full_buffer
        ≡ some (ok call_bytes, packet_conn []))
read_xot_into-send_xot_packet_example =
    read_xot_into-send_xot_packet call_bytes full_buffer [] (λ w. true) (λ w. refl) (omega arith)
      (omega arith)

parsed_fields : parse_call_request call ≡ ok fields
unfolding parse_call_request parse_payload decode hex_digit nibble_at
parsed_fields = refl

new_settings_valid : All IsSetting (settings new_settings)
unfolding settings setting decode_hex from_hex_char
new_settings_valid =
    ((omega arith, inr (omega arith, refl)), ((omega arith, inl (omega arith, omega arith)), tt))

short_field : length (new_facilities (λ m. m) new_settings fields.facilities) < 256
unfolding new_facilities parse_facilities encode_facilities merge_facilities decode_hex
    from_hex_char insert read_facilities take_value
short_field = omega arith

inject_facilities_lem_example :
    (q : X25Packet) × (inject_facilities (λ m. m) new_settings call ≡ ok q)
    × (q.gfi ≡ 1)
    × (q.lci ≡ 300)
    × (q.type ≡ 0x0B)
    × (parse_call_request q
        ≡ ok
            (record fields { facilities = new_facilities (λ m. m) new_settings fields.facilities }))
    × ((code : ℕ)
        → lookup code (parse_facilities (new_facilities (λ m. m) new_settings fields.facilities))
          ≡ or_else
              (requested code (settings new_settings))
              (lookup code (parse_facilities fields.facilities)))
inject_facilities_lem_example =
    inject_facilities_lem (λ m. m) new_settings call fields payload_IsByte parsed_fields
      new_settings_valid (λ m d. record { distinct = d; agrees = λ k. refl }) short_field

lookup-merge_facilities_example :
    lookup 0x42 (merge_facilities new_settings two_facilities)
    ≡ or_else (requested 0x42 (settings new_settings)) (lookup 0x42 two_facilities)
lookup-merge_facilities_example = lookup-merge_facilities 0x42 new_settings two_facilities
