-- ===== src/X25/Address.antt =====
-- src/x25.go, X.121 addresses as binary coded digits: EncodeBCD, and the closures `encode` of
-- InjectFacilities and `decode` of ParseCallRequest and ParseCallConnected.
-- An address is a list of character codes; the program's addresses are ASCII.
pub mod RoundTrip
use goxot.Base.{
  ℕ, zero, suc, ◌+◌, ◌-◌, ◌*◌, ◌/◌, ◌%◌, ◌^◌, bit_and, bit_or, ◌&&◌, List, [], ◌∷◌, ltb, leb, ◌==◌,
  if◌then◌else◌, length, get_or, set, replicate,
}
use goxot.Base.Bits.{shl8, shr}

-- A character as a hexadecimal digit. Any other character counts as 0.
unfoldable pub digit_value : ℕ → ℕ
digit_value r =
    if leb b'0' r && leb r b'9'
    then (r - b'0') % 256
    else if leb b'a' r && leb r b'f'
    then (r - b'a' + 10) % 256
    else if leb b'A' r && leb r b'F'
    then (r - b'A' + 10) % 256
    else 0

-- fmt.Sprintf("%x", v) for one digit
unfoldable pub hex_digit : ℕ → ℕ
hex_digit v = if ltb v 10 then b'0' + v else b'a' + v - 10

unfoldable pub write_nibble : List ℕ → ℕ → ℕ → List ℕ
write_nibble d nibble val =
    set d (nibble / 2)
      (bit_or (get_or d (nibble / 2) 0) (if nibble % 2 == 0 then shl8 val 4 else bit_and val 0x0f))

-- The closure stops where the next digit has no byte.
unfoldable pub encode : List ℕ → ℕ → List ℕ → List ℕ
encode [] nibble d = d
encode (r ∷ addr) nibble d =
    let more = encode addr (nibble + 1) (write_nibble d nibble (digit_value r)) in
    if ltb (nibble / 2) (length d) then more else d

-- EncodeBCD writes the digits from the first nibble on, into (len + 1) / 2 zero bytes.
encode_digits : List ℕ → ℕ → List ℕ → List ℕ
encode_digits [] i res = res
encode_digits (r ∷ addr) i res = encode_digits addr (i + 1) (write_nibble res i (digit_value r))

unfoldable pub encode_bcd : List ℕ → List ℕ
unfolding encode_digits
encode_bcd addr = encode_digits addr 0 (replicate ((length addr + 1) / 2) 0)

unfoldable pub nibble_at : List ℕ → ℕ → ℕ
nibble_at d nibble =
    let val = get_or d (nibble / 2) 0 in if nibble % 2 == 0 then shr val 4 else bit_and val 0x0f

-- `decode d length nibble`: the loop appends a digit a round, and stops past the last byte.
unfoldable pub decode : List ℕ → ℕ → ℕ → List ℕ
decode d zero nibble = []
decode d (suc n) nibble =
    let rest = decode d n (nibble + 1) in
    if ltb (nibble / 2) (length d) then hex_digit (nibble_at d nibble) ∷ rest else []
