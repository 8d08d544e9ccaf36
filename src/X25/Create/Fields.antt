-- ===== src/X25/Create/Fields.antt =====
-- src/x25.go: what the made packets say when their fields are read back.
use goxot.Base.{
  ℕ, ◌+◌, ◌*◌, ◌/◌, ◌%◌, ◌<◌, ◌≡◌, ◌∙◌, bit_and, bit_or, Bool, true, false, List, [], ◌∷◌, ◌==◌,
  if◌then◌else◌, arith, ap, ok, Bool-cases, inl, inr,
}
use goxot.Base.Bits.{and_07, and_7f, or_nibbles, shl8, or_sequence, or_sequence_m, or_low_bit}
use goxot.X25.Packet.{X25Packet, gfi_mod128, interrupt, lci_high, lci_low, parse_x25}
use goxot.X25.Packet.Header.{header_byte, lci_low_lem, parse_x25_lem}
use goxot.X25.Create.{data_byte, receive_byte, create_data, create_interrupt}

abbrev pub m_bit : Bool → ℕ
m_bit true = 1
m_bit false = 0

-- P(R) is counted in 32s, the M bit is 16 and P(S) is counted in 2s.
data_byte_lem :
    (pS pR : ℕ) (m : Bool)
    → pS < 256
    → pR < 256
    → data_byte pS pR m ≡ pR % 8 * 32 + m_bit m * 16 + pS % 8 * 2
unfolding data_byte
data_byte_lem pS pR m h k =
    let r : shl8 (bit_and pR 0x07) 5 ≡ pR % 8 * 32 = omega (arith, and_07 pR k) in
    let s : shl8 (bit_and pS 0x07) 1 ≡ pS % 8 * 2 = omega (arith, and_07 pS h) in
    rw (r, s) (marked m)
  where
    marked :
        (m : Bool)
        → (if m
            then bit_or (bit_or (pR % 8 * 32) (pS % 8 * 2)) 0x10
            else bit_or (pR % 8 * 32) (pS % 8 * 2))
          ≡ pR % 8 * 32 + m_bit m * 16 + pS % 8 * 2
    marked true =
        rw (or_sequence (pR % 8) (pS % 8) (omega arith) (omega arith))
          (omega (arith, or_sequence_m (pR % 8) (pS % 8) (omega arith) (omega arith)))
    marked false = omega (arith, or_sequence (pR % 8) (pS % 8) (omega arith) (omega arith))

receive_byte_lem : (pR : ℕ) (m : Bool) → pR < 256 → receive_byte pR m ≡ pR % 128 * 2 + m_bit m
unfolding receive_byte
receive_byte_lem pR true k =
    let r : shl8 (bit_and pR 0x7f) 1 ≡ pR % 128 * 2 = omega (arith, and_7f pR k) in
    rw r (or_low_bit (pR % 128) (omega arith))
receive_byte_lem pR false k = omega (arith, and_7f pR k)

send_byte_lem : (pS : ℕ) → pS < 256 → shl8 (bit_and pS 0x7f) 1 ≡ pS % 128 * 2
send_byte_lem pS h = omega (arith, and_7f pS h)

-- The fields of a data packet, in plain arithmetic.
pub data_fields : ℕ → ℕ → ℕ → ℕ → Bool → List ℕ → X25Packet
data_fields gfi lci pS pR m payload =
    if gfi == gfi_mod128
    then record {
      gfi = gfi;
      lci = lci;
      type = pS % 128 * 2;
      payload = (pR % 128 * 2 + m_bit m) ∷ payload;
    }
    else record {
      gfi = gfi;
      lci = lci;
      type = pR % 8 * 32 + m_bit m * 16 + pS % 8 * 2;
      payload = payload;
    }

-- A data packet for a GFI and an LCI that fit the header parses to these fields: the sequence
-- numbers are cut to 3 bits, or to 7 bits in a modulo 128 packet, and none disturbs another.
pub parse_x25-create_data :
    (gfi lci pS pR : ℕ) (m : Bool) (payload : List ℕ)
    → gfi < 16
    → lci < 4096
    → pS < 256
    → pR < 256
    → parse_x25 (create_data gfi lci pS pR m payload) ≡ ok (data_fields gfi lci pS pR m payload)
unfolding create_data data_fields
parse_x25-create_data gfi lci pS pR m payload hg hl hs hr = elim (Bool-cases (gfi == gfi_mod128)) [
  | inl e ↦
      rw (e, hdr, low, send_byte_lem pS hs, receive_byte_lem pR m hr)
        (parse_x25_lem _ _ _ _ (omega arith) (omega arith) ∙ ap ok (packet_eq _ _))
  | inr e ↦
      rw (e, hdr, low, data_byte_lem pS pR m hs hr)
        (parse_x25_lem _ _ _ _ (omega arith) (omega arith) ∙ ap ok (packet_eq _ _))
]
  where
    hdr : bit_or (shl8 gfi 4) (lci_high lci) ≡ gfi * 16 + lci / 256
    hdr = omega (arith, header_byte gfi lci (omega arith))

    low : lci_low lci ≡ lci % 256
    low = lci_low_lem lci (omega arith)

    packet_eq :
        (t : ℕ) (rest : List ℕ)
        → (let q : X25Packet = record {
          gfi = (gfi * 16 + lci / 256) / 16;
          lci = (gfi * 16 + lci / 256) % 16 * 256 + lci % 256;
          type = t;
          payload = rest;
        } in
            q)
          ≡ record { gfi = gfi; lci = lci; type = t; payload = rest }
    packet_eq t rest = ground arith

-- For a GFI and an LCI that fit the header, the keepalive probe parses to an interrupt with the
-- given octet.
pub parse_x25-create_interrupt :
    (gfi lci octet : ℕ)
    → gfi < 16
    → lci < 4096
    → parse_x25 (create_interrupt gfi lci octet)
      ≡ ok (record { gfi = gfi; lci = lci; type = interrupt; payload = octet ∷ [] })
unfolding create_interrupt
parse_x25-create_interrupt gfi lci octet hg hl = ground (
  arith,
  or_nibbles gfi (lci / 256) hg (omega arith),
  parse_x25_lem (gfi * 16 + lci / 256) (lci % 256) interrupt (octet ∷ []),
)
