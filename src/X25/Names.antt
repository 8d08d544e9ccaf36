-- ===== src/X25/Names.antt =====
-- src/x25.go, the names of packet types: GetPacketTypeName and TypeName. A text is a list of
-- character codes.
pub mod Agree
use goxot.Base.{
  ℕ, ◌+◌, ◌-◌, ◌%◌, ◌/◌, ◌^◌, bit_and, ◌||◌, List, [], ◌∷◌, ◌++◌, ltb, ◌==◌, if◌then◌else◌, codes,
}
use goxot.Base.Bits.{shr}
use goxot.X25.Packet.{
  X25Packet, is_data, get_base_type, is_supervisory, call_request, call_connected, clear_request,
  clear_confirm, interrupt, restart_request, restart_confirm,
}

-- One digit of fmt.Sprintf("%02X", v)
upper_digit : ℕ → ℕ
upper_digit v = if ltb v 10 then b'0' + v else b'A' + v - 10

unknown_name : ℕ → List ℕ
unfolding upper_digit
unknown_name t = codes "UNKNOWN(0x" ++ (upper_digit (shr t 4) ∷ upper_digit (t % 16) ∷ codes ")")

-- The switch, on the base type `b` of the packet type `t`.
base_name : ℕ → ℕ → List ℕ
unfolding unknown_name
base_name b t =
    if b == call_request
    then codes "CALL_REQ"
    else if b == call_connected
    then codes "CALL_CONN"
    else if b == clear_request
    then codes "CLR_REQ"
    else if b == clear_confirm
    then codes "CLR_CONF"
    else if b == 0x01
    then codes "RR"
    else if b == 0x05
    then codes "RNR"
    else if b == 0x09
    then codes "REJ"
    else if b == 0x1b
    then codes "RESET_REQ"
    else if b == 0x1f
    then codes "RESET_CONF"
    else if b == interrupt
    then codes "INTERRUPT"
    else if b == 0x27
    then codes "INTERRUPT_CONF"
    else if b == restart_request
    then codes "RESTART_REQ"
    else if b == restart_confirm
    then codes "RESTART_CONF"
    else if b == 0xf1
    then codes "DIAG"
    else if b == 0xf3
    then codes "REG_REQ"
    else if b == 0xf7
    then codes "REG_CONF"
    else unknown_name t

unfoldable pub get_packet_type_name : ℕ → List ℕ
unfolding base_name
get_packet_type_name t =
    if bit_and t 0x01 == 0
    then codes "DATA"
    else base_name
        (if bit_and t 0x0f == 0x01 || bit_and t 0x0f == 0x05 || bit_and t 0x0f == 0x09
          then bit_and t 0x0f
          else t)
        t

unfoldable pub type_name : X25Packet → List ℕ
type_name p = if is_data p then codes "DATA" else get_packet_type_name (get_base_type p)
