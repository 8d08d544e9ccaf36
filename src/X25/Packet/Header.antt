-- ===== src/X25/Packet/Header.antt =====
-- src/x25.go: the three header bytes, read, written and remapped.
use goxot.Base.{
  ℕ, ◌+◌, ◌*◌, ◌/◌, ◌%◌, ◌^◌, ◌<◌, ◌≤◌, bit_and, bit_or, ◌≡◌, refl, ◌∙◌, List, [], ◌∷◌, some, ok,
  length, drop, All, arith,
}
use goxot.Base.Bits.{IsByte, and_0f, and_f0, and_ff, or_nibbles, or_bytes, shl8}
use goxot.X25.Packet.{
  X25Packet, get_gfi, get_lci, get_packet_type, parse_x25, serialize, remap_lci, lci_high, lci_low,
}

-- A packet whose fields fit their places in the header.
pub record IsValid (p : X25Packet) : Type 0 where
  pub gfi : p.gfi < 16
  pub lci : p.lci < 4096
  pub type : p.type < 256
  pub payload : All IsByte p.payload

lci_high_lem : (lci : ℕ) → lci < 2 ^ 16 → lci_high lci ≡ lci / 256 % 16
lci_high_lem lci h = omega (arith, and_0f (lci / 256) (omega arith))

pub lci_low_lem : (lci : ℕ) → lci < 2 ^ 16 → lci_low lci ≡ lci % 256
lci_low_lem lci h = omega (arith, and_ff lci h)

pub header_byte :
    (g lci : ℕ) → lci < 2 ^ 16 → bit_or (shl8 g 4) (lci_high lci) ≡ g % 16 * 16 + lci / 256 % 16
header_byte g lci hl =
    let e : shl8 g 4 ≡ g % 16 * 16 = omega arith in
    rw (e, lci_high_lem lci hl) (or_nibbles (g % 16) (lci / 256 % 16) (omega arith) (omega arith))

pub remap_byte :
    (a lci : ℕ)
    → a < 256
    → lci < 2 ^ 16
    → bit_or (bit_and a 0xf0) (lci_high lci) ≡ a / 16 * 16 + lci / 256 % 16
remap_byte a lci h hl =
    rw (and_f0 a h, lci_high_lem lci hl)
      (or_nibbles (a / 16) (lci / 256 % 16) (omega arith) (omega arith))

pub get_gfi_lem : (a : ℕ) (rest : List ℕ) → a < 256 → get_gfi (a ∷ rest) ≡ a / 16
unfolding get_gfi
get_gfi_lem a rest h = ground (arith, and_0f (a / 16) (omega arith))

pub get_lci_lem :
    (a b : ℕ) (rest : List ℕ) → a < 256 → b < 256 → get_lci (a ∷ b ∷ rest) ≡ a % 16 * 256 + b
unfolding get_lci
get_lci_lem a b rest ha hb =
    let e : bit_and a 0x0f * 256 % 2 ^ 16 ≡ a % 16 * 256 = omega (arith, and_0f a ha) in
    ground (arith, e, or_bytes (a % 16) b (omega arith) hb)

pub get_packet_type_lem : (a b t : ℕ) (rest : List ℕ) → get_packet_type (a ∷ b ∷ t ∷ rest) ≡ t
unfolding get_packet_type
get_packet_type_lem a b t rest = ground arith

-- What `parse_x25` reads from three bytes and the rest.
pub parse_x25_lem :
    (a b t : ℕ) (rest : List ℕ)
    → a < 256
    → b < 256
    → parse_x25 (a ∷ b ∷ t ∷ rest)
      ≡ ok (record { gfi = a / 16; lci = a % 16 * 256 + b; type = t; payload = rest })
unfolding parse_x25
parse_x25_lem a b t rest ha hb = ground (
  arith,
  get_gfi_lem a (b ∷ t ∷ rest) ha,
  get_lci_lem a b (t ∷ rest) ha hb,
  get_packet_type_lem a b t rest,
)

-- Parsing a serialized packet gives the packet back, when its fields fit the header.
pub parse_x25-serialize : (p : X25Packet) → IsValid p → parse_x25 (serialize p) ≡ ok p
unfolding serialize
parse_x25-serialize p v = ground (
  arith,
  header_byte p.gfi p.lci (omega arith),
  lci_low_lem p.lci (omega arith),
  parse_x25_lem (p.gfi % 16 * 16 + p.lci / 256 % 16) (p.lci % 256) p.type p.payload,
)

serialize_lem :
    (p : X25Packet)
    → serialize p ≡ bit_or (shl8 p.gfi 4) (lci_high p.lci) ∷ lci_low p.lci ∷ p.type ∷ p.payload
unfolding serialize
serialize_lem p = refl

-- Serializing a parsed packet gives back the bytes that it was read from.
pub serialize-parse_x25 :
    (bytes : List ℕ) (p : X25Packet)
    → All IsByte bytes
    → parse_x25 bytes ≡ ok p
    → (serialize p ≡ bytes) × IsValid p
serialize-parse_x25 [] p h e = unfold parse_x25 in cc
serialize-parse_x25 (a ∷ []) p h e = unfold parse_x25 in cc
serialize-parse_x25 (a ∷ b ∷ []) p h e = unfold parse_x25 in cc
serialize-parse_x25 (a ∷ b ∷ t ∷ rest) p h e = ground (
  arith,
  parse_x25_lem a b t rest h.0 h.1.0,
  header_byte (a / 16) (a % 16 * 256 + b) (omega arith),
  lci_low_lem (a % 16 * 256 + b) (omega arith),
  serialize_lem p,
)

remap_lci_step :
    (a b lci : ℕ) (rest : List ℕ)
    → a < 256
    → lci < 2 ^ 16
    → remap_lci (a ∷ b ∷ rest) lci ≡ some ((a / 16 * 16 + lci / 256 % 16) ∷ (lci % 256) ∷ rest)
unfolding remap_lci
remap_lci_step a b lci rest h hl = ground (arith, remap_byte a lci h hl, lci_low_lem lci hl)

-- Two bytes are enough for the relays to write an LCI into a packet.
pub remap_lci_total :
    (bytes : List ℕ) (lci : ℕ)
    → 2 ≤ length bytes
    → (out : List ℕ) × (remap_lci bytes lci ≡ some out)
unfolding remap_lci
remap_lci_total [] lci h = absurd (omega arith)
remap_lci_total (a ∷ []) lci h = absurd (omega arith)
remap_lci_total (a ∷ b ∷ rest) lci h = (_, refl)

-- After a remap to an LCI below 4096 the packet carries the new LCI, and its GFI, its type, its length and all bytes
-- behind the second are what they were.
pub remap_lci_fields :
    (bytes out : List ℕ) (lci : ℕ)
    → All IsByte bytes
    → lci < 4096
    → remap_lci bytes lci ≡ some out
    → (get_lci out ≡ lci)
      × (get_gfi out ≡ get_gfi bytes)
      × (get_packet_type out ≡ get_packet_type bytes)
      × (length out ≡ length bytes)
      × (drop 2 out ≡ drop 2 bytes)
      × All IsByte out
remap_lci_fields [] out lci h hl e = unfold remap_lci in cc
remap_lci_fields (a ∷ []) out lci h hl e = unfold remap_lci in cc
remap_lci_fields (a ∷ b ∷ rest) out lci h hl e = rw same (
  get_lci_lem _ _ rest (omega arith) (omega arith) ∙ omega arith,
  get_gfi_lem _ _ (omega arith) ∙ omega (arith, get_gfi_lem a (b ∷ rest) h.0),
  unfold get_packet_type in refl,
  refl,
  refl,
  (omega arith, (omega arith, h.1.1)),
)
  where
    same : out ≡ (a / 16 * 16 + lci / 256 % 16) ∷ (lci % 256) ∷ rest
    same = cc (remap_lci_step a b lci rest h.0 (omega arith))

-- A remap of a packet's bytes to an LCI below 4096 is undone by a remap to the packet's own.
pub remap_lci_back :
    (bytes out : List ℕ) (lci : ℕ)
    → All IsByte bytes
    → lci < 4096
    → remap_lci bytes lci ≡ some out
    → remap_lci out (get_lci bytes) ≡ some bytes
remap_lci_back [] out lci h hl e = unfold remap_lci in cc
remap_lci_back (a ∷ []) out lci h hl e = unfold remap_lci in cc
remap_lci_back (a ∷ b ∷ rest) out lci h hl e = ground (
  arith,
  remap_lci_step a b lci rest h.0 (omega arith),
  get_lci_lem a b rest h.0 h.1.0,
  remap_lci_step (a / 16 * 16 + lci / 256 % 16) (lci % 256) (a % 16 * 256 + b) rest,
)

pub get_lci_small : (packet : List ℕ) → All IsByte packet → get_lci packet < 4096
unfolding get_lci
get_lci_small [] h = ground arith
get_lci_small (a ∷ []) h = ground arith
get_lci_small (a ∷ b ∷ rest) h = omega (arith, get_lci_lem a b rest h.0 h.1.0, h.0, h.1.0)
