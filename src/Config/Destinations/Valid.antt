-- ===== src/Config/Destinations/Valid.antt =====
-- src/config.go, validateDestinations: what is kept is what InjectFacilities can encode.
use goxot.Base.{
  ℕ, ◌≤◌, ◌<◌, ◌≡◌, refl, Bool, true, false, List, [], ◌∷◌, Option, none, some, length, arith, All,
  inl, inr, Bool-cases,
}
use goxot.Base.Bits.{IsByte}
use goxot.Base.Hex.{decode_hex, decode_hex-IsByte}
use goxot.X25.Facilities.RoundTrip.{IsFacility}
use goxot.X25.Facilities.Valid.{setting, settings}
use goxot.Config.Destinations.{
  right_length, validate_facility, validate_facilities, add_destination, validate_destinations,
}

-- A facility's value whose length fits the length byte of its class.
unfoldable pub IsShort : List ℕ × List ℕ → Type 0
IsShort (code_hex, val_hex) = (val : List ℕ) → decode_hex val_hex ≡ some val → length val < 256

right_length-IsFacility :
    (code : ℕ) (val : List ℕ)
    → code < 256
    → length val < 256
    → right_length (code ∷ []) (some val) ≡ true
    → IsFacility (code, val)
unfolding right_length
right_length-IsFacility code val b short e = (b, ground arith)

-- A facility of the configuration that decodes to a code and a value of the length of its class.
unfoldable pub IsDecoded : Option (ℕ × List ℕ) → Type 0
IsDecoded none = ⊥
IsDecoded (some f) = IsFacility f

setting-IsDecoded :
    (k v : Option (List ℕ))
    → ((code : List ℕ) → k ≡ some code → All IsByte code)
    → (elim k as (λ k'. Bool) [ none ↦ false | some code ↦ right_length code v ]) ≡ true
    → ((val : List ℕ) → v ≡ some val → length val < 256)
    → IsDecoded (setting k v)
unfolding setting IsDecoded right_length
setting-IsDecoded none v b e short = cc
setting-IsDecoded (some []) v b e short = cc
setting-IsDecoded (some (code ∷ c ∷ rest)) v b e short = cc
setting-IsDecoded (some (code ∷ [])) none b e short = cc
setting-IsDecoded (some (code ∷ [])) (some val) b e short =
    right_length-IsFacility code val (b (code ∷ []) refl).0 (short val refl) e

validate_facility-IsDecoded :
    (code_hex val_hex : List ℕ)
    → validate_facility code_hex val_hex ≡ true
    → IsShort (code_hex, val_hex)
    → IsDecoded (setting (decode_hex code_hex) (decode_hex val_hex))
unfolding validate_facility IsShort
validate_facility-IsDecoded code_hex val_hex e short =
    setting-IsDecoded (decode_hex code_hex) (decode_hex val_hex)
      (λ code k. decode_hex-IsByte code_hex k) e short

validate_facilities-IsDecoded :
    (facilities : List (List ℕ × List ℕ))
    → All IsShort facilities
    → All IsDecoded (settings (validate_facilities facilities))
unfolding validate_facilities settings
validate_facilities-IsDecoded [] h = tt
validate_facilities-IsDecoded ((code_hex, val_hex) ∷ facilities) h =
    elim (Bool-cases (validate_facility code_hex val_hex)) [
      | inl e ↦
          rw (e, validate_facilities)
            (
              validate_facility-IsDecoded code_hex val_hex e h.0,
              validate_facilities-IsDecoded facilities h.1,
            )
      | inr e ↦ rw (e, validate_facilities) (validate_facilities-IsDecoded facilities h.1)
    ]

-- An address that is kept has a facility.
abbrev pub HasFacility : List ℕ × List (List ℕ × List ℕ) → Type 0
HasFacility (addr, facilities) = 1 ≤ length facilities

abbrev pub HasSettings : List ℕ × List (List ℕ × List ℕ) → Type 0
HasSettings (addr, facilities) = All IsDecoded (settings facilities)

abbrev pub AllShort : List ℕ × List (List ℕ × List ℕ) → Type 0
AllShort (addr, facilities) = All IsShort facilities

add_destination-All :
    (addr : List ℕ) (facilities : List (List ℕ × List ℕ))
    (dests : List (List ℕ × List (List ℕ × List ℕ)))
    → All IsDecoded (settings facilities)
    → All HasSettings dests
    → All HasFacility dests
    → All HasSettings (add_destination addr facilities dests)
      × All HasFacility (add_destination addr facilities dests)
unfolding add_destination
add_destination-All addr [] dests s h k = (h, k)
add_destination-All addr (f ∷ facilities) dests s h k = ((s, h), (omega arith, k))

-- Where the values of the configuration are shorter than 256 bytes, what is kept of the destinations is
-- what InjectFacilities needs: for every address that is kept there is a facility, and every facility
-- decodes to a code and a value of the length of its class.
pub validate_destinations-IsDecoded :
    (dests : List (List ℕ × List (List ℕ × List ℕ)))
    → All AllShort dests
    → All HasSettings (validate_destinations dests) × All HasFacility (validate_destinations dests)
unfolding validate_destinations
validate_destinations-IsDecoded [] h = (tt, tt)
validate_destinations-IsDecoded ((addr, facilities) ∷ dests) h =
    let rest = validate_destinations-IsDecoded dests h.1 in
    add_destination-All addr _ _ (validate_facilities-IsDecoded facilities h.0) rest.0 rest.1
