-- ===== src/Tests/Calls.antt =====
-- src/cmd/xot-server/main.go and src/cmd/xot-gateway/main.go at concrete inputs: one call that is
-- local, and one that goes to a server with facilities for its destination.
use goxot.Base.{
  ◌≢◌, ◌⊎◌, ℕ, ◌<◌, ◌≡◌, refl, inr, Bool, true, false, List, [], ◌∷◌, Option, none, some, Result,
  ok, arith, All, codes, length, if◌then◌else◌,
}
use goxot.Base.Bits.{IsByte}
use goxot.Base.Maps.{Map, ℕ_key, lookup}
use goxot.X25.Packet.{X25Packet, get_gfi, get_lci, serialize, call_request}
use goxot.X25.CallSetup.{CallFields, parse_call_request, new_facilities}
use goxot.Xot.{XotError}
use goxot.Config.Ints.{pos}
use goxot.Config.Tun.{TunConfig}
use goxot.Config.Servers.{ServerConfig, get_server}
use goxot.Config.Manager.{ConfigManager, get_servers, get_destination}
use goxot.Config.Servers.{any_local, get_server, prefix_of, prefix_part}
use goxot.Config.Ints.{atoi, split}
use goxot.Bridge.Calls.{
  await, call_bytes, connect_peer, connect_remote, dial_first, handle_gateway_conn,
  handle_incoming_xot, route_incoming, route_outgoing, screen, screen_call, screen_packet,
}
use goxot.X25.CallSetup.{
  build_payload, inject_facilities, new_facilities, parse_call_request, parse_payload,
}
use goxot.Config.Manager.{config_of, get_destination, get_servers}
use goxot.X25.Address.{digit_value, write_nibble, decode, encode, hex_digit, nibble_at}
use goxot.Base.Hex.{decode_hex, from_hex_char}
use goxot.X25.Facilities.{
  encode_facilities, merge_facilities, parse_facilities, read_facilities, take_value,
}
use goxot.Config.Destinations.{find_destination}
use goxot.X25.Packet.{
  get_base_type, get_gfi, get_lci, get_packet_type, is_data, is_supervisory, parse_x25, serialize,
  validate_size,
}
use goxot.Prefix.{has_prefix, improves, longest_match}
use goxot.Base.Maps.{insert}
use goxot.Bridge.Calls.{
  Peer, tun_peer, gateway_peer, placed, handle_incoming_xot, handle_gateway_conn,
}
use goxot.Base.Texts.{same_text}
use goxot.Bridge.Calls.Placed.{IsRead, Screened}
use goxot.Bridge.Calls.Injected.{Dialled, IsFirst, handle_gateway_conn-Dialled, call_bytes_lem}
use goxot.X25.Facilities.Valid.{IsSetting, settings, setting, requested}
use mathlib.Core.Option.{or_else}
use goxot.Bridge.Calls.Routes.{handle_incoming_xot-placed}

abbrev request : List ℕ
request = 0x10 ∷ 0x05 ∷ 0x0B ∷ 0x02 ∷ 0x34 ∷ 0 ∷ []

abbrev one_address : List ℕ → ServerConfig → Option (List ℕ)
one_address addr srv = some (7 ∷ [])

abbrev never : ℕ → Bool
never ip = false

abbrev accepts : Peer → Bool
accepts peer = true

-- A packet that is no call, and the call.
abbrev reads : List (Result XotError (List ℕ))
reads = ok (0x10 ∷ 0x05 ∷ 0x00 ∷ []) ∷ ok request ∷ []

local_call : handle_incoming_xot one_address never none accepts reads ≡ placed tun_peer 1 5 request
unfolding handle_incoming_xot route_incoming connect_peer await screen screen_packet screen_call
    get_servers config_of get_server any_local longest_match has_prefix improves prefix_of
    prefix_part split atoi parse_x25 validate_size get_base_type is_data is_supervisory
    parse_call_request parse_payload decode hex_digit nibble_at get_gfi get_lci get_packet_type
    serialize
local_call = refl

abbrev call : X25Packet
call = record { gfi = 1; lci = 5; type = call_request; payload = 0x02 ∷ 0x34 ∷ 0 ∷ [] }

handle_incoming_xot-placed_example :
    (pkt : X25Packet) × (f : CallFields) × IsRead (ok request) reads
    × Screened request pkt f
    × (1 ≡ get_gfi request)
    × (5 ≡ get_lci request)
    × (tun_peer ≡ (
        if (get_server one_address never (get_servers none) f.called true).1
        then tun_peer
        else gateway_peer))
    × (accepts tun_peer ≡ true)
handle_incoming_xot-placed_example =
    handle_incoming_xot-placed one_address never none accepts reads tun_peer 1 5 request local_call

abbrev server : ServerConfig
server = record {
  prefix = codes "34/2";
  ip = codes "10.0.0.1";
  port = [];
  dns_pattern = [];
  dns_name = [];
  tcp_keepalive_interval = none;
  x25_keepalive_interval = pos 0;
}

abbrev range : TunConfig
range = record { lci_start = pos 1; lci_end = pos 4095; modulo = pos 8 }

abbrev new_settings : List (List ℕ × List ℕ)
new_settings = (codes "42", codes "0707") ∷ []

abbrev config : ConfigManager
config = record {
  config = some (record {
    tun_gateway = range;
    tun_loopback = range;
    xot_gateway = [];
    xot_server = [];
    gateway_port = [];
    loopback_port = [];
    routes = [];
    servers = server ∷ [];
    destinations = (codes "34", new_settings) ∷ [];
  });
  last_mod = 1;
}

abbrev answers : ServerConfig → ℕ → Bool
answers srv ip = true

abbrev in_order : Map ℕ (List ℕ) → Map ℕ (List ℕ)
in_order m = m

abbrev sent_bytes : List ℕ
sent_bytes = 0x10 ∷ 0x05 ∷ 0x0B ∷ 0x02 ∷ 0x34 ∷ 3 ∷ 0x42 ∷ 7 ∷ 7 ∷ []

remote_call :
    handle_gateway_conn one_address never (some config) answers in_order reads
    ≡ placed 7 1 5 sent_bytes
unfolding handle_gateway_conn route_outgoing connect_remote dial_first call_bytes get_destination
    find_destination lookup same_text inject_facilities new_facilities build_payload
    parse_facilities encode_facilities merge_facilities encode write_nibble digit_value decode_hex
    from_hex_char insert read_facilities take_value await screen screen_packet screen_call
    get_servers config_of get_server any_local longest_match has_prefix improves prefix_of
    prefix_part split atoi parse_x25 validate_size get_base_type is_data is_supervisory
    parse_call_request parse_payload decode hex_digit nibble_at get_gfi get_lci get_packet_type
    serialize
remote_call = refl

handle_gateway_conn-Dialled_example :
    (bytes : List ℕ) × (pkt : X25Packet) × (f : CallFields) × IsRead (ok bytes) reads
    × Screened bytes pkt f
    × Dialled one_address never (some config) answers in_order 7 1 5 bytes sent_bytes pkt f
    × ((sent_bytes ≡ bytes)
        ⊎ ((new : List (List ℕ × List ℕ)) × (get_destination (some config) f.called ≡ some new)
            × (new ≢ [])))
handle_gateway_conn-Dialled_example =
    handle_gateway_conn-Dialled one_address never (some config) answers in_order reads 7 1 5
      sent_bytes remote_call

abbrev fields : CallFields
fields = record { called = codes "34"; calling = []; facilities = []; user_data = [] }

call_fields : parse_call_request call ≡ ok fields
unfolding parse_call_request parse_payload decode hex_digit nibble_at
call_fields = refl

call-Dialled :
    Dialled one_address never (some config) answers in_order 7 1 5 request sent_bytes call fields
unfolding IsFirst call_bytes get_destination find_destination lookup same_text inject_facilities
    new_facilities build_payload parse_facilities encode_facilities merge_facilities encode
    write_nibble digit_value decode_hex from_hex_char insert read_facilities take_value get_servers
    config_of get_server any_local longest_match has_prefix improves prefix_of prefix_part split
    atoi parse_call_request parse_payload decode hex_digit nibble_at serialize
call-Dialled = record {
  srv = server;
  ips = 7 ∷ [];
  server = refl;
  resolved = refl;
  first = ([], [], refl, tt, refl);
  sent = refl;
  same_gfi = refl;
  same_lci = refl;
}

some_destination : get_destination (some config) (codes "34") ≡ some new_settings
unfolding get_destination config_of find_destination lookup same_text
some_destination = refl

new_settings_valid : All IsSetting (settings new_settings)
unfolding settings setting decode_hex from_hex_char
new_settings_valid = ((omega arith, inr (omega arith, refl)), tt)

short_field : length (new_facilities in_order new_settings []) < 256
unfolding new_facilities parse_facilities encode_facilities merge_facilities decode_hex
    from_hex_char insert read_facilities take_value
short_field = omega arith

payload-IsByte : All IsByte call.payload
payload-IsByte = (omega arith, (omega arith, (omega arith, tt)))

call_bytes_lem_example :
    (q : X25Packet) × (sent_bytes ≡ serialize q)
    × (q.gfi ≡ 1)
    × (q.lci ≡ 5)
    × (parse_call_request q
        ≡ ok
            (record fields { facilities = new_facilities in_order new_settings fields.facilities }))
    × ((code : ℕ)
        → lookup code (parse_facilities (new_facilities in_order new_settings fields.facilities))
          ≡ or_else
              (requested code (settings new_settings))
              (lookup code (parse_facilities fields.facilities)))
call_bytes_lem_example =
    call_bytes_lem one_address never (some config) answers in_order 7 1 5 request sent_bytes call
      fields new_settings call-Dialled call_fields some_destination (λ e. cc) payload-IsByte
      new_settings_valid (λ m d. record { distinct = d; agrees = λ k. refl }) short_field
