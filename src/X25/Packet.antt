-- ===== src/X25/Packet.antt =====
-- src/x25.go, the packet: its header on the wire, its type and its size limits.
-- A byte slice is a list of numbers; `byte` and `uint16` arithmetic wraps by `shl8` and `shl16`.
pub mod Header
pub mod Types
use goxot.Base.{
  ℕ, ◌+◌, ◌*◌, ◌/◌, ◌%◌, ◌^◌, bit_and, bit_or, Bool, ◌||◌, List, [], ◌∷◌, Option, none, some,
  Result, ok, err, ltb, ◌==◌, if◌then◌else◌, length, get_or, drop,
}
use goxot.Base.Bits.{shl8, shl16, shr}

abbrev pub gfi_mod8 : ℕ
gfi_mod8 = 0x01

abbrev pub gfi_mod128 : ℕ
gfi_mod128 = 0x02

abbrev pub max_user_data : ℕ
max_user_data = 4096

abbrev pub max_x25_packet_size : ℕ
max_x25_packet_size = 4107

abbrev pub max_xot_packet_size : ℕ
max_xot_packet_size = 4111

abbrev pub max_call_request_size : ℕ
max_call_request_size = 260

abbrev pub lci_min : ℕ
lci_min = 1

abbrev pub lci_max : ℕ
lci_max = 4095

abbrev pub cause_network_congestion : ℕ
cause_network_congestion = 0x05

abbrev pub cause_out_of_order : ℕ
cause_out_of_order = 0x09

abbrev pub cause_local_procedure_error : ℕ
cause_local_procedure_error = 0x42

abbrev pub call_request : ℕ
call_request = 0x0b

abbrev pub call_connected : ℕ
call_connected = 0x0f

abbrev pub clear_request : ℕ
clear_request = 0x13

abbrev pub clear_confirm : ℕ
clear_confirm = 0x17

abbrev pub interrupt : ℕ
interrupt = 0x23

abbrev pub restart_request : ℕ
restart_request = 0xfb

abbrev pub restart_confirm : ℕ
restart_confirm = 0xff

pub record X25Packet : Type 0 where
  pub gfi : ℕ
  pub lci : ℕ
  pub type : ℕ
  pub payload : List ℕ

-- The errors of x25.go. `facilities_too_short` also carries the two addresses that the parser
-- returns beside that error.
pub data Error : Type 0 where
  packet_too_short : ℕ → Error
  wrong_type : Error
  payload_too_short : ℕ → Error
  addresses_too_short : ℕ → ℕ → Error
  facilities_too_short : List ℕ → List ℕ → ℕ → ℕ → Error
  user_data_too_large : ℕ → Error
  call_request_too_large : ℕ → Error
  x25_packet_too_large : ℕ → Error

unfoldable pub get_gfi : List ℕ → ℕ
get_gfi bytes = if ltb (length bytes) 1 then 0 else bit_and (shr (get_or bytes 0 0) 4) 0x0f

unfoldable pub get_lci : List ℕ → ℕ
get_lci bytes =
    if ltb (length bytes) 2
    then 0
    else bit_or (shl16 (bit_and (get_or bytes 0 0) 0x0f) 8) (get_or bytes 1 0)

unfoldable pub get_packet_type : List ℕ → ℕ
get_packet_type bytes = if ltb (length bytes) 3 then 0 else get_or bytes 2 0

unfoldable pub parse_x25 : List ℕ → Result Error X25Packet
parse_x25 bytes =
    if ltb (length bytes) 3
    then err (packet_too_short (length bytes))
    else ok (record {
      gfi = get_gfi bytes;
      lci = get_lci bytes;
      type = get_packet_type bytes;
      payload = drop 3 bytes;
    })

-- byte((lci >> 8) & 0x0F) and byte(lci & 0xFF)
abbrev pub lci_high : ℕ → ℕ
lci_high lci = bit_and (shr lci 8) 0x0f % 256

abbrev pub lci_low : ℕ → ℕ
lci_low lci = bit_and lci 0xff % 256

unfoldable pub serialize : X25Packet → List ℕ
serialize p = bit_or (shl8 p.gfi 4) (lci_high p.lci) ∷ lci_low p.lci ∷ p.type ∷ p.payload

-- The relays' two assignments to data[0] and data[1]. `none`: an index is out of range.
unfoldable pub remap_lci : List ℕ → ℕ → Option (List ℕ)
remap_lci (a ∷ b ∷ rest) lci = some (bit_or (bit_and a 0xf0) (lci_high lci) ∷ lci_low lci ∷ rest)
remap_lci _ lci = none

unfoldable pub is_data : X25Packet → Bool
is_data p = bit_and p.type 0x01 == 0

-- The types of RR, RNR and REJ stand in the low four bits, below a sequence number.
unfoldable pub is_supervisory : ℕ → Bool
is_supervisory t = bit_and t 0x0f == 0x01 || bit_and t 0x0f == 0x05 || bit_and t 0x0f == 0x09

unfoldable pub get_base_type : X25Packet → ℕ
unfolding is_data is_supervisory
get_base_type p =
    if is_data p then 0 else if is_supervisory p.type then bit_and p.type 0x0f else p.type

unfoldable pub validate_size : X25Packet → Option Error
validate_size p =
    if ltb max_user_data (length p.payload)
    then some (user_data_too_large (length p.payload))
    else if p.type == call_request
    then if ltb max_call_request_size (length (serialize p))
      then some (call_request_too_large (length (serialize p)))
      else none
    else if ltb max_x25_packet_size (length (serialize p))
    then some (x25_packet_too_large (length (serialize p)))
    else none
