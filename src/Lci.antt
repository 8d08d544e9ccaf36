-- ===== src/Lci.antt =====
-- The allocation of logical channel identifiers, which src/session.go and
-- src/cmd/tun-loopback/main.go each do by the same loop: from a cursor on, once round the range.
-- The numbers are uint16 and wrap.
pub mod Scan
use goxot.Base.{ℕ, zero, suc, ◌+◌, ◌-◌, ◌%◌, ◌^◌, Bool, Option, none, some, if◌then◌else◌}

abbrev pub add16 : ℕ → ℕ → ℕ
add16 a b = (a + b) % 2 ^ 16

abbrev pub sub16 : ℕ → ℕ → ℕ
sub16 a b = (a + 2 ^ 16 - b) % 2 ^ 16

-- rangeSize := end - start + 1
abbrev pub range_size : ℕ → ℕ → ℕ
range_size start end = add16 (sub16 end start) 1

-- The LCI of round `i`: start + (next-start+i)%rangeSize
abbrev pub candidate : ℕ → ℕ → ℕ → ℕ → ℕ
candidate start end next i = add16 start (add16 (sub16 next start) i % range_size start end)

-- The cursor behind `lci`: start + (lci-start+1)%rangeSize
abbrev pub advance : ℕ → ℕ → ℕ → ℕ
advance start end lci = add16 start (add16 (sub16 lci start) 1 % range_size start end)

module _ (used : ℕ → Bool) (start end next : ℕ) where
  unfoldable pub scan : ℕ → ℕ → Option ℕ
  scan zero i = none
  scan (suc rounds) i =
      let rest = scan rounds (i + 1) in
      if used (candidate start end next i) then rest else some (candidate start end next i)

  -- The loop over the whole range.
  unfoldable pub find_free : Option ℕ
  find_free = scan (range_size start end) 0
