-- ===== src/X25/Create.antt =====
-- src/x25.go, the packets that the program makes itself: CreateData, CreateClearRequest,
-- CreateInterrupt, and NegotiateGFI.
pub mod Fields
use goxot.Base.{
  ℕ, ◌+◌, ◌*◌, ◌/◌, ◌%◌, ◌^◌, bit_and, bit_or, Bool, List, [], ◌∷◌, ltb, ◌==◌, if◌then◌else◌,
}
use goxot.Base.Bits.{shl8, shr}
use goxot.X25.Packet.{X25Packet, gfi_mod128, clear_request, interrupt, lci_high, lci_low}

-- The third byte of a modulo 8 packet: P(R), the M bit, P(S) and a 0 bit.
unfoldable pub data_byte : ℕ → ℕ → Bool → ℕ
data_byte pS pR mbit =
    let byte2 = bit_or (shl8 (bit_and pR 0x07) 5) (shl8 (bit_and pS 0x07) 1) in
    if mbit then bit_or byte2 0x10 else byte2

-- The fourth byte of a modulo 128 packet: P(R) and the M bit.
unfoldable pub receive_byte : ℕ → Bool → ℕ
receive_byte pR mbit =
    let byte3 = shl8 (bit_and pR 0x7f) 1 in if mbit then bit_or byte3 0x01 else byte3

unfoldable pub create_data : ℕ → ℕ → ℕ → ℕ → Bool → List ℕ → List ℕ
unfolding data_byte receive_byte
create_data gfi lci pS pR mbit payload =
    let hdr0 = bit_or (shl8 gfi 4) (lci_high lci) in
    let hdr1 = lci_low lci in
    if gfi == gfi_mod128
    then hdr0 ∷ hdr1 ∷ shl8 (bit_and pS 0x7f) 1 ∷ receive_byte pR mbit ∷ payload
    else hdr0 ∷ hdr1 ∷ data_byte pS pR mbit ∷ payload

unfoldable pub negotiate_gfi : ℕ → ℕ
negotiate_gfi caller_gfi = if ltb caller_gfi gfi_mod128 then caller_gfi else gfi_mod128

unfoldable pub create_clear_request : ℕ → ℕ → ℕ → ℕ → X25Packet
create_clear_request gfi lci cause diag = record {
  gfi = gfi;
  lci = lci;
  type = clear_request;
  payload = cause ∷ diag ∷ [];
}

-- Here the high byte of the LCI is not masked.
unfoldable pub create_interrupt : ℕ → ℕ → ℕ → List ℕ
create_interrupt gfi lci octet =
    bit_or (shl8 gfi 4) (shr lci 8 % 256) ∷ (lci % 256) ∷ interrupt ∷ octet ∷ []
