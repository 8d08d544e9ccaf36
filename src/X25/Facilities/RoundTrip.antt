-- ===== src/X25/Facilities/RoundTrip.antt =====
-- src/x25.go: a facilities field that was written from a map reads back as that map.
use goxot.Base.{
  ℕ, zero, suc, ◌+◌, ◌/◌, ◌%◌, ◌≤◌, ◌<◌, ◌≡◌, refl, ◌∙◌, ◌⊎◌, inl, inr, List, [], ◌∷◌, ◌++◌, some,
  arith, length, All, ◌==◌, if◌then◌else◌, length-append, take-append_length, drop-append_length,
}
use goxot.Base.Maps.{Map, ℕ_key, insert}
use goxot.Base.Maps.Order.{Distinct, insert_all, insert_all-Distinct}
use goxot.X25.Facilities.{
  value_length, split_value, variable_value, take_value, read_facilities, parse_facilities,
  encode_facilities,
}

-- A code with a value of the length that its class asks for.
abbrev pub IsFacility : ℕ × List ℕ → Type 0
IsFacility (code, val) =
    (code < 256)
    × ((code / 64 ≡ 3) × (length val < 256) ⊎ (code / 64 < 3) × (length val ≡ code / 64 + 1))

split_value-append :
    (val tail : List ℕ) (n : ℕ) → length val ≡ n → split_value n (val ++ tail) ≡ some (val, tail)
unfolding split_value
split_value-append val tail n e = rw (← e) (
    ground
      (arith, take-append_length val tail, drop-append_length val tail, length-append val tail))

take_value-append :
    (code : ℕ) (val tail : List ℕ)
    → IsFacility (code, val)
    → take_value code ((if code / 64 == 3 then (length val % 256) ∷ val else val) ++ tail)
      ≡ some (val, tail)
unfolding take_value variable_value value_length
take_value-append code val tail (h, inl (c, l)) =
    ground (arith, split_value-append val tail (length val % 256) (omega arith))
take_value-append code val tail (h, inr (c, l)) =
    ground (arith, split_value-append val tail (code / 64 + 1) l)

encode_facilities_shorter :
    (code : ℕ) (val : List ℕ) (m : Map ℕ (List ℕ))
    → length (encode_facilities m) < length (encode_facilities ((code, val) ∷ m))
unfolding encode_facilities
encode_facilities_shorter code val m = omega (
  arith,
  length-append {0} (if code / 64 == 3 then (length val % 256) ∷ val else val)
      (encode_facilities m),
)

read_facilities_step :
    (fuel code : ℕ) (rest val more : List ℕ) (m : Map ℕ (List ℕ))
    → take_value code rest ≡ some (val, more)
    → read_facilities (suc fuel) (code ∷ rest) m ≡ read_facilities fuel more (insert code val m)
unfolding read_facilities
read_facilities_step fuel code rest val more m e = rw (e, read_facilities)

read-encode :
    (m acc : Map ℕ (List ℕ)) (fuel : ℕ)
    → length (encode_facilities m) ≤ fuel
    → All IsFacility m
    → read_facilities fuel (encode_facilities m) acc ≡ insert_all m acc
unfolding insert_all encode_facilities
read-encode [] acc zero h v = unfold read_facilities in refl
read-encode [] acc (suc fuel) h v = unfold read_facilities in refl
read-encode ((code, val) ∷ m) acc zero h v =
    absurd (omega (arith, encode_facilities_shorter code val m))
read-encode ((code, val) ∷ m) acc (suc fuel) h v =
    read_facilities_step fuel code _ val (encode_facilities m) acc
      (take_value-append code val (encode_facilities m) v.0)
    ∙ read-encode m (insert code val acc) fuel (omega (arith, encode_facilities_shorter code val m))
        v.1

-- A facilities field that was written from a map with well-formed entries, each code once, reads
-- back as that map.
pub parse_facilities-encode_facilities :
    (m : Map ℕ (List ℕ))
    → Distinct m
    → All IsFacility m
    → parse_facilities (encode_facilities m) ≡ m
unfolding parse_facilities
parse_facilities-encode_facilities m d v =
    read-encode m [] _ (omega arith) v ∙ insert_all-Distinct m d
