-- ===== src/X25/Facilities/Valid.antt =====
-- src/x25.go: which facilities a map holds after reading a field and after an update.
use goxot.Base.{
  ℕ, zero, suc, ◌+◌, ◌/◌, ◌≤◌, ◌<◌, ◌≡◌, refl, ◌∙◌, inl, inr, List, [], ◌∷◌, Option, none, some,
  arith, length, drop, All, ◌==◌, if◌then◌else◌, Option-cases, Bool-cases, length-take, length-drop,
}
use mathlib.Core.Option.{or_else}
use goxot.Base.Bits.{IsByte}
use goxot.Base.Hex.{decode_hex}
use goxot.Base.Maps.{Map, ℕ_key, insert, lookup, lookup-insert}
use goxot.Base.Maps.Order.{Distinct, insert-Distinct}
use goxot.X25.Facilities.{
  value_length, split_value, variable_value, take_value, read_facilities, parse_facilities,
  set_facility, merge_facilities,
}
use goxot.X25.Facilities.RoundTrip.{IsFacility}

insert-IsFacility :
    (code : ℕ) (val : List ℕ) (m : Map ℕ (List ℕ))
    → IsFacility (code, val)
    → All IsFacility m
    → All IsFacility (insert code val m)
unfolding insert
insert-IsFacility code val [] h v = (h, tt)
insert-IsFacility code val ((j, w) ∷ m) h v = elim (Bool-cases (j == code)) [
  | inl e ↦ rw e (h, v.1)
  | inr e ↦ rw e (v.0, insert-IsFacility code val m h v.1)
]

All-drop : (n : ℕ) (xs : List ℕ) → All IsByte xs → All IsByte (drop n xs)
All-drop zero xs h = h
All-drop (suc n) [] h = tt
All-drop (suc n) (x ∷ xs) h = All-drop n xs h.1

abbrev Taken : ℕ → List ℕ → List ℕ → List ℕ → Type 0
Taken n rest val more = (length val ≡ n) × All IsByte more × (length more ≤ length rest)

split_value-Taken :
    (n : ℕ) (rest val more : List ℕ)
    → All IsByte rest
    → split_value n rest ≡ some (val, more)
    → Taken n rest val more
unfolding split_value
split_value-Taken n rest val more h e =
    ground (arith, length-take n rest, length-drop n rest, All-drop n rest h)

value_length_lem : (class : ℕ) → class < 3 → value_length class ≡ class + 1
unfolding value_length
value_length_lem class h = ground arith

variable_value-Taken :
    (rest val more : List ℕ)
    → All IsByte rest
    → variable_value rest ≡ some (val, more)
    → (length val < 256) × All IsByte more × (length more ≤ length rest)
unfolding variable_value
variable_value-Taken [] val more h e = cc
variable_value-Taken (n ∷ rest) val more h e =
    let t = split_value-Taken n rest val more h.1 e in (omega arith, t.1, omega arith)

take_value-Taken :
    (code : ℕ) (rest val more : List ℕ)
    → code < 256
    → All IsByte rest
    → take_value code rest ≡ some (val, more)
    → IsFacility (code, val) × All IsByte more × (length more ≤ length rest)
unfolding take_value
take_value-Taken code rest val more hc h e = elim (Bool-cases (code / 64 == 3)) [
  | inl c ↦
      let t = variable_value-Taken rest val more h (rw c at e) in
      ((hc, inl (ground arith, t.0)), t.1, t.2)
  | inr c ↦
      let t = split_value-Taken (value_length (code / 64)) rest val more h (rw c at e) in
      let l : code / 64 < 3 = ground arith in
      ((hc, inr (l, t.0 ∙ value_length_lem (code / 64) l)), t.1, t.2)
]

read_facilities-Valid :
    (fuel : ℕ) (fac : List ℕ) (m : Map ℕ (List ℕ))
    → All IsByte fac
    → All IsFacility m
    → Distinct m
    → All IsFacility (read_facilities fuel fac m) × Distinct (read_facilities fuel fac m)
unfolding read_facilities
read_facilities-Valid zero fac m h v d = (v, d)
read_facilities-Valid (suc fuel) [] m h v d = (v, d)
read_facilities-Valid (suc fuel) (code ∷ rest) m h v d =
    elim (Option-cases (take_value code rest)) [
      | inl e ↦ rw (e, read_facilities) (v, d)
      | inr ((val, more), e) ↦
          let t = take_value-Taken code rest val more h.0 h.1 e in
          rw (e, read_facilities)
            (read_facilities-Valid fuel more (insert code val m) t.1
              (insert-IsFacility code val m t.0 v) (insert-Distinct code val m d))
    ]

-- Whatever bytes stand in the field, the map that is read from it has entries of the right length,
-- each code once.
pub parse_facilities-Valid :
    (fac : List ℕ)
    → All IsByte fac
    → All IsFacility (parse_facilities fac) × Distinct (parse_facilities fac)
unfolding parse_facilities
parse_facilities-Valid fac h = read_facilities-Valid (length fac) fac [] h tt tt

-- More rounds than the field has bytes change nothing: the loop ends by its own test.
pub read_facilities_fuel :
    (fuel : ℕ) (fac : List ℕ) (m : Map ℕ (List ℕ))
    → All IsByte fac
    → length fac ≤ fuel
    → read_facilities (suc fuel) fac m ≡ read_facilities fuel fac m
unfolding read_facilities
read_facilities_fuel zero [] m h l = refl
read_facilities_fuel zero (code ∷ rest) m h l = absurd (omega arith)
read_facilities_fuel (suc fuel) [] m h l = refl
read_facilities_fuel (suc fuel) (code ∷ rest) m h l = elim (Option-cases (take_value code rest)) [
  | inl e ↦ rw (e, read_facilities)
  | inr ((val, more), e) ↦
      let t = take_value-Taken code rest val more h.0 h.1 e in
      rw (e, read_facilities) (read_facilities_fuel fuel more (insert code val m) t.1 (omega arith))
]

-- What one configured entry asks for: a code and a value, or nothing where it does not decode.
unfoldable pub setting : Option (List ℕ) → Option (List ℕ) → Option (ℕ × List ℕ)
setting (some (code ∷ [])) (some val) = some (code, val)
setting _ _ = none

-- The entries that decode, as the program decodes them.
unfoldable pub settings : List (List ℕ × List ℕ) → List (Option (ℕ × List ℕ))
settings [] = []
settings ((k, v) ∷ new) = setting (decode_hex k) (decode_hex v) ∷ settings new

abbrev pub IsSetting : Option (ℕ × List ℕ) → Type 0
IsSetting none = Unit {0}
IsSetting (some f) = IsFacility f

-- The value that the last entry for `code` asks for.
unfoldable pub requested : ℕ → List (Option (ℕ × List ℕ)) → Option (List ℕ)
requested code [] = none
requested code (none ∷ new) = requested code new
requested code (some (c, v) ∷ new) =
    or_else (requested code new) (if c == code then some v else none)

set_facility-Valid :
    (k v : Option (List ℕ)) (m : Map ℕ (List ℕ))
    → IsSetting (setting k v)
    → All IsFacility m
    → Distinct m
    → All IsFacility (set_facility k v m) × Distinct (set_facility k v m)
unfolding set_facility setting
set_facility-Valid none v m s h d = (h, d)
set_facility-Valid (some []) v m s h d = (h, d)
set_facility-Valid (some (code ∷ [])) none m s h d = (h, d)
set_facility-Valid (some (code ∷ [])) (some val) m s h d =
    (insert-IsFacility code val m s h, insert-Distinct code val m d)
set_facility-Valid (some (code ∷ c ∷ cs)) v m s h d = (h, d)

pub merge_facilities-Valid :
    (new : List (List ℕ × List ℕ)) (m : Map ℕ (List ℕ))
    → All IsSetting (settings new)
    → All IsFacility m
    → Distinct m
    → All IsFacility (merge_facilities new m) × Distinct (merge_facilities new m)
unfolding merge_facilities settings
merge_facilities-Valid [] m s h d = (h, d)
merge_facilities-Valid ((k, v) ∷ new) m s h d =
    let t = set_facility-Valid (decode_hex k) (decode_hex v) m s.0 h d in
    merge_facilities-Valid new (set_facility (decode_hex k) (decode_hex v) m) s.1 t.0 t.1

lookup-set_facility :
    (code : ℕ) (k v : Option (List ℕ)) (m : Map ℕ (List ℕ))
    → lookup code (set_facility k v m) ≡ or_else (requested code (setting k v ∷ [])) (lookup code m)
unfolding set_facility setting requested or_else
lookup-set_facility code none v m = refl
lookup-set_facility code (some []) v m = refl
lookup-set_facility code (some (c ∷ [])) none m = refl
lookup-set_facility code (some (c ∷ [])) (some val) m = ground (arith, lookup-insert c code val m)
lookup-set_facility code (some (c ∷ d ∷ cs)) v m = refl

or_else_assoc : (a b c : Option (List ℕ)) → or_else a (or_else b c) ≡ or_else (or_else a b) c
unfolding or_else
or_else_assoc none b c = refl
or_else_assoc (some x) b c = refl

requested-cons :
    (code : ℕ) (s : Option (ℕ × List ℕ)) (new : List (Option (ℕ × List ℕ)))
    → requested code (s ∷ new) ≡ or_else (requested code new) (requested code (s ∷ []))
unfolding requested or_else
requested-cons code none new = ground arith
requested-cons code (some (c, v)) new = refl

-- After the update a code has the value of the last configured entry that asks for it, and where
-- none does, the value that it had.
pub lookup-merge_facilities :
    (code : ℕ) (new : List (List ℕ × List ℕ)) (m : Map ℕ (List ℕ))
    → lookup code (merge_facilities new m) ≡ or_else (requested code (settings new)) (lookup code m)
unfolding merge_facilities settings
lookup-merge_facilities code [] m = unfold requested or_else in refl
lookup-merge_facilities code ((k, v) ∷ new) m =
    lookup-merge_facilities code new (set_facility (decode_hex k) (decode_hex v) m)
    ∙ rw
        (
          lookup-set_facility code (decode_hex k) (decode_hex v) m,
          requested-cons code (setting (decode_hex k) (decode_hex v)) (settings new),
        )
        (or_else_assoc _ _ _)
