-- ===== src/Config/Ints.antt =====
-- Go's int, without a bound, and strconv.Atoi and strings.Split as src/config.go uses them.
use goxot.Base.{
  ℕ, zero, suc, ◌+◌, ◌*◌, ◌-◌, Bool, true, false, ◌&&◌, List, [], ◌∷◌, Option, none, some, ltb, leb,
  ◌==◌, if◌then◌else◌,
}

pub data ℤ : Type 0 where
  pos negsuc : ℕ → ℤ

abbrev pub lt_int : ℤ → ℤ → Bool
lt_int (pos a) (pos b) = ltb a b
lt_int (pos a) (negsuc b) = false
lt_int (negsuc a) (pos b) = true
lt_int (negsuc a) (negsuc b) = ltb b a

abbrev pub eq_int : ℤ → ℤ → Bool
eq_int (pos a) (pos b) = a == b
eq_int (negsuc a) (negsuc b) = a == b
eq_int _ _ = false

-- The digits behind what was read so far; any other character is an error.
digits : ℕ → List ℕ → Option ℕ
digits n [] = some n
digits n (c ∷ text) =
    let rest = digits (n * 10 + (c - b'0')) text in if leb b'0' c && leb c b'9' then rest else none

unsigned : List ℕ → Option ℕ
unsigned [] = none
unsigned (c ∷ text) = digits 0 (c ∷ text)

negate : ℕ → ℤ
negate zero = pos zero
negate (suc n) = negsuc n

-- An int out of range is an error of strconv.Atoi; here it stays an int that no length is equal to.
unfoldable pub atoi : List ℕ → Option ℤ
unfolding digits unsigned negate
atoi [] = none
atoi (c ∷ text) =
    if c == b'-'
    then elim (unsigned text) [ none ↦ none | some n ↦ some (negate n) ]
    else if c == b'+'
    then elim (unsigned text) [ none ↦ none | some n ↦ some (pos n) ]
    else elim (unsigned (c ∷ text)) [ none ↦ none | some n ↦ some (pos n) ]

add_front : ℕ → List (List ℕ) → List (List ℕ)
add_front c [] = (c ∷ []) ∷ []
add_front c (part ∷ parts) = (c ∷ part) ∷ parts

-- strings.Split with a separator of one character
unfoldable pub split : ℕ → List ℕ → List (List ℕ)
unfolding add_front
split sep [] = [] ∷ []
split sep (c ∷ text) = if c == sep then [] ∷ split sep text else add_front c (split sep text)
