-- ===== src/X25/Facilities.antt =====
-- src/x25.go, the facilities field: the loop of InjectFacilities that reads it into a map, the
-- update of the map, and the loop that writes the map back.
-- The field is what is left of the slice from the index `i` on. A Go map is a list of entries;
-- the order of a range over one is an argument.
pub mod RoundTrip
pub mod Valid
use goxot.Base.{
  ℕ, zero, suc, ◌+◌, ◌%◌, ◌/◌, ◌^◌, List, [], ◌∷◌, ◌++◌, Option, none, some, ltb, ◌==◌,
  if◌then◌else◌, length, take, drop,
}
use goxot.Base.Bits.{shr}
use goxot.Base.Hex.{decode_hex}
use goxot.Base.Maps.{Map, ℕ_key, insert}

-- The bytes of a value by the two top bits of its code; class 3 writes its own length.
unfoldable pub value_length : ℕ → ℕ
value_length class = if class == 0 then 1 else if class == 1 then 2 else if class == 2 then 3 else 0

-- fac[i+1 : i+1+valLen] and what follows it; `none` where the slice would pass the end.
split_value : ℕ → List ℕ → Option (List ℕ × List ℕ)
split_value n rest = if ltb (length rest) n then none else some (take n rest, drop n rest)

variable_value : List ℕ → Option (List ℕ × List ℕ)
unfolding split_value
variable_value [] = none
variable_value (n ∷ rest) = split_value n rest

unfoldable pub take_value : ℕ → List ℕ → Option (List ℕ × List ℕ)
unfolding split_value variable_value value_length
take_value code rest =
    if shr code 6 == 3 then variable_value rest else split_value (value_length (shr code 6)) rest

-- The loop. Each round takes a byte at least, so the length of the field is fuel enough.
unfoldable pub read_facilities : ℕ → List ℕ → Map ℕ (List ℕ) → Map ℕ (List ℕ)
read_facilities zero fac m = m
read_facilities (suc fuel) [] m = m
read_facilities (suc fuel) (code ∷ rest) m = elim (take_value code rest) [
  | none ↦ m
  | some (val, more) ↦ read_facilities fuel more (insert code val m)
]

unfoldable pub parse_facilities : List ℕ → Map ℕ (List ℕ)
parse_facilities fac = read_facilities (length fac) fac []

-- One entry of newFac: two texts of hexadecimal digits. An entry that does not decode is skipped.
set_facility : Option (List ℕ) → Option (List ℕ) → Map ℕ (List ℕ) → Map ℕ (List ℕ)
set_facility (some (code ∷ [])) (some val) m = insert code val m
set_facility _ _ m = m

-- `new` is a range over the configured facilities.
unfoldable pub merge_facilities : List (List ℕ × List ℕ) → Map ℕ (List ℕ) → Map ℕ (List ℕ)
unfolding set_facility
merge_facilities [] m = m
merge_facilities ((k, v) ∷ new) m =
    merge_facilities new (set_facility (decode_hex k) (decode_hex v) m)

unfoldable pub encode_facilities : Map ℕ (List ℕ) → List ℕ
encode_facilities [] = []
encode_facilities ((code, val) ∷ m) =
    code ∷ ((if shr code 6 == 3 then (length val % 256) ∷ val else val) ++ encode_facilities m)
