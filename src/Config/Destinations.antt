-- ===== src/Config/Destinations.antt =====
-- src/config.go, validateDestinations: the facilities that are kept for each address. A map is the
-- list of its entries in the order in which the program meets them.
pub mod Valid
use goxot.Base.{
  ℕ, ◌/◌, ◌^◌, Bool, true, false, not, ◌&&◌, List, [], ◌∷◌, Option, none, some, if◌then◌else◌, ◌==◌,
  length,
}
use goxot.Base.Hex.{decode_hex}
use goxot.Base.Maps.{lookup}
use goxot.Base.Texts.{text_key}

abbrev pub class_length : ℕ → ℕ
class_length class = if class == 0 then 1 else if class == 1 then 2 else if class == 2 then 3 else 0

right_length : List ℕ → Option (List ℕ) → Bool
right_length (code ∷ []) (some val) =
    not (not (code / 2 ^ 6 == 3) && not (length val == class_length (code / 2 ^ 6)))
right_length _ _ = false

unfoldable pub validate_facility : List ℕ → List ℕ → Bool
unfolding right_length
validate_facility code_hex val_hex = elim (decode_hex code_hex) [
  | none ↦ false
  | some code ↦ right_length code (decode_hex val_hex)
]

unfoldable pub validate_facilities : List (List ℕ × List ℕ) → List (List ℕ × List ℕ)
validate_facilities [] = []
validate_facilities ((code_hex, val_hex) ∷ facilities) =
    let valid = validate_facilities facilities in
    if validate_facility code_hex val_hex then (code_hex, val_hex) ∷ valid else valid

add_destination :
    List ℕ
    → List (List ℕ × List ℕ)
    → List (List ℕ × List (List ℕ × List ℕ))
    → List (List ℕ × List (List ℕ × List ℕ))
add_destination addr [] dests = dests
add_destination addr (f ∷ facilities) dests = (addr, f ∷ facilities) ∷ dests

unfoldable pub validate_destinations :
    List (List ℕ × List (List ℕ × List ℕ)) → List (List ℕ × List (List ℕ × List ℕ))
unfolding add_destination
validate_destinations [] = []
validate_destinations ((addr, facilities) ∷ dests) =
    add_destination addr (validate_facilities facilities) (validate_destinations dests)

-- Destinations[addr]
unfoldable pub find_destination :
    List ℕ → List (List ℕ × List (List ℕ × List ℕ)) → Option (List (List ℕ × List ℕ))
find_destination addr dests = lookup addr dests
