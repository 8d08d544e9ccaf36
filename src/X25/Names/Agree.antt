-- ===== src/X25/Names/Agree.antt =====
-- src/x25.go: both ways to a packet's name agree.
use goxot.Base.{
  ℕ, ◌%◌, ◌<◌, ◌≡◌, refl, sym, bit_and, true, false, ◌⊎◌, inl, inr, ◌==◌, arith, Bool-cases, codes,
}
use goxot.Base.Bits.{and_01, and_0f}
use goxot.X25.Packet.{X25Packet, is_data, is_supervisory, get_base_type}
use goxot.X25.Names.{base_name, get_packet_type_name, type_name}

-- The name of RR, RNR or REJ does not depend on the sequence number.
supervisory_name : (b t u : ℕ) → (b ≡ 1) ⊎ ((b ≡ 5) ⊎ (b ≡ 9)) → base_name b t ≡ base_name b u
unfolding base_name
supervisory_name b t u (inl e) = rw e
supervisory_name b t u (inr (inl e)) = rw e
supervisory_name b t u (inr (inr e)) = rw e

name_even : (t : ℕ) → bit_and t 0x01 ≡ 0 → get_packet_type_name t ≡ codes "DATA"
unfolding get_packet_type_name
name_even t e = rw e

name_odd :
    (t : ℕ) → bit_and t 0x01 ≡ 1 → is_supervisory t ≡ false → get_packet_type_name t ≡ base_name t t
unfolding get_packet_type_name is_supervisory
name_odd t e n = rw (e, n)

name_sup :
    (t : ℕ)
    → bit_and t 0x01 ≡ 1
    → is_supervisory t ≡ true
    → get_packet_type_name t ≡ base_name (bit_and t 0x0f) t
unfolding get_packet_type_name is_supervisory
name_sup t e n = rw (e, n)

-- The masked type of a supervisory packet.
module _ (t : ℕ) (h : t < 256) (sup : is_supervisory t ≡ true) where
  low : ℕ
  low = t % 16

  low_cases : (low ≡ 1) ⊎ ((low ≡ 5) ⊎ (low ≡ 9))
  unfolding is_supervisory low
  low_cases = ground (arith, and_0f t h)

  low-IsSupervisory :
      (bit_and low 0x01 ≡ 1) × (is_supervisory low ≡ true) × (bit_and low 0x0f ≡ low)
  low-IsSupervisory = by_case low_cases
    where
      by_case :
          (low ≡ 1) ⊎ ((low ≡ 5) ⊎ (low ≡ 9))
          → (bit_and low 0x01 ≡ 1) × (is_supervisory low ≡ true) × (bit_and low 0x0f ≡ low)
      by_case (inl e) = unfold is_supervisory in rw e (refl, refl, refl)
      by_case (inr (inl e)) = unfold is_supervisory in rw e (refl, refl, refl)
      by_case (inr (inr e)) = unfold is_supervisory in rw e (refl, refl, refl)

  name_of_low : (bit_and t 0x01 ≡ 1) → get_packet_type_name low ≡ get_packet_type_name t
  name_of_low odd =
      let (a, b, c) = low-IsSupervisory in
      let m : bit_and t 0x0f ≡ low = unfold low in and_0f t h in
      rw (name_sup low a b, name_sup t odd sup, m, c) (supervisory_name low low t low_cases)

-- A packet's name is the name of its type, when that is a byte.
pub type_name-get_packet_type_name :
    (p : X25Packet) → p.type < 256 → type_name p ≡ get_packet_type_name p.type
unfolding type_name is_data get_base_type low
type_name-get_packet_type_name p h = elim (Bool-cases (bit_and p.type 0x01 == 0)) [
  | inl e ↦ rw e (sym (name_even p.type (ground arith)))
  | inr e ↦ elim (Bool-cases (is_supervisory p.type)) [
    | inl s ↦ rw (e, s, and_0f p.type h) (name_of_low p.type h s (ground (arith, and_01 p.type h)))
    | inr s ↦ rw (e, s) refl
  ]
]
