-- ===== src/Lci/Scan.antt =====
-- The allocation loop finds a free LCI if there is one.
use goxot.Base.{
  ℕ, zero, suc, ◌+◌, ◌-◌, ◌%◌, ◌≤◌, ◌<◌, ◌≡◌, ◌≢◌, sym, ◌∙◌, Bool, true, false, none, some,
  if◌then◌else◌, arith, ltb, Bool-cases, inl, inr,
}
use native.Mathlib.Decide.{dec_lt}
use native.Mathlib.Nat.{mod-eq_of_lt, mod-eq-sub-mod}
use goxot.Lci.{add16, sub16, range_size, candidate, advance, scan, find_free}

-- A range of usable LCIs with the cursor inside it.
pub record IsRange (start end next : ℕ) : Type 0 where
  pub low : 1 ≤ start
  pub high : end ≤ 4095
  pub after_start : start ≤ next
  pub before_end : next ≤ end

-- The distance from the cursor to an LCI, round the range.
unfoldable pub distance : ℕ → ℕ → ℕ → ℕ → ℕ
distance start end next lci = if ltb lci next then lci + (end + 1 - start) - next else lci - next

wrap : (x n : ℕ) → 0 < n → x < n + n → x % n ≡ (if ltb x n then x else x - n)
wrap x n p h = elim (Bool-cases (ltb x n)) [
  | inl e ↦ rw e (mod-eq_of_lt (ground arith))
  | inr e ↦ rw e (mod-eq-sub-mod (ground arith) ∙ mod-eq_of_lt (ground arith))
]

module _ {start end next : ℕ} (r : IsRange start end next) where
  size : range_size start end ≡ end + 1 - start
  size = omega (arith, r.low, r.high, r.after_start, r.before_end)

  offset : (x : ℕ) → start ≤ x → x ≤ end → sub16 x start ≡ x - start
  offset x h k = omega (arith, r.low, r.high)

  pub candidate_lem :
      (i : ℕ)
      → i < end + 1 - start
      → candidate start end next i
        ≡ (if ltb end (next + i) then next + i - (end + 1 - start) else next + i)
  candidate_lem i h =
      let o : sub16 next start ≡ next - start = offset next r.after_start r.before_end in
      let a : add16 (next - start) i ≡ next - start + i = omega (arith, r.high, r.before_end) in
      rw
        (
          size,
          o,
          a,
          wrap (next - start + i) (end + 1 - start) (omega arith)
              (omega (arith, r.before_end, r.after_start)),
        )
        (ground (arith, r.low, r.high, r.before_end, r.after_start))

  -- Each LCI of the range is the candidate of the round that its distance counts.
  candidate-distance :
      (lci : ℕ)
      → start ≤ lci
      → lci ≤ end
      → (distance start end next lci < end + 1 - start)
        × (candidate start end next (distance start end next lci) ≡ lci)
  unfolding distance
  candidate-distance lci h k = ground (arith, candidate_lem (distance start end next lci))

  pub advance_lem :
      (lci : ℕ)
      → start ≤ lci
      → lci ≤ end
      → advance start end lci ≡ (if ltb lci end then lci + 1 else start)
  advance_lem lci h k =
      let o : sub16 lci start ≡ lci - start = offset lci h k in
      let a : add16 (lci - start) 1 ≡ lci - start + 1 = omega (arith, r.high) in
      rw (size, o, a, wrap (lci - start + 1) (end + 1 - start) (omega arith) (omega arith))
        (ground (arith, r.low, r.high))

  candidate_range :
      (i : ℕ)
      → i < end + 1 - start
      → (start ≤ candidate start end next i)
        × (candidate start end next i ≤ end)
        × (distance start end next (candidate start end next i) ≡ i)
  unfolding distance
  candidate_range i h = rw (candidate_lem i h) (
    ground (arith, r.low, r.high, r.before_end, r.after_start),
    ground (arith, r.low, r.high, r.before_end, r.after_start),
    ground (arith, r.low, r.high, r.before_end, r.after_start),
  )

  pub advance-IsRange :
      (lci : ℕ) → start ≤ lci → lci ≤ end → IsRange start end (advance start end lci)
  advance-IsRange lci h k =
      rw (advance_lem lci h k) (record {
        low = r.low;
        high = r.high;
        after_start = ground arith;
        before_end = ground arith;
      })

-- What a scan that starts at round `i` has found.
record Found (used : ℕ → Bool) (start end next i rounds lci : ℕ) : Type 0 where
  round : ℕ
  from : i ≤ round
  to : round < i + rounds
  is_candidate : lci ≡ candidate start end next round
  free : used lci ≡ false
  passed : (j : ℕ) → i ≤ j → j < round → used (candidate start end next j) ≡ true

module _ (used : ℕ → Bool) (start end next : ℕ) where
  scan-some :
      (rounds i lci : ℕ)
      → scan used start end next rounds i ≡ some lci
      → Found used start end next i rounds lci
  unfolding scan
  scan-some zero i lci e = cc
  scan-some (suc rounds) i lci e = elim (Bool-cases (used (candidate start end next i))) [
    | inl busy ↦
        let f = scan-some rounds (i + 1) lci (rw busy at e) in
        record {
          round = f.round;
          from = omega (arith, f.from);
          to = omega (arith, f.to);
          is_candidate = f.is_candidate;
          free = f.free;
          passed = λ j p q. elim (dec_lt i j) [
            | yes later ↦ f.passed j (omega arith) q
            | no now ↦ let same : j ≡ i = omega arith in rw same busy
          ];
        }
    | inr idle ↦
        let here : candidate start end next i ≡ lci = cc (rw idle at e) in
        record {
          round = i;
          from = omega arith;
          to = omega arith;
          is_candidate = sym here;
          free = rw (← here) idle;
          passed = λ j p q. absurd (omega arith);
        }
  ]

  scan-none :
      (rounds i : ℕ)
      → scan used start end next rounds i ≡ none
      → (j : ℕ) → i ≤ j
      → j < i + rounds
      → used (candidate start end next j) ≡ true
  unfolding scan
  scan-none zero i e j p q = absurd (omega arith)
  scan-none (suc rounds) i e j p q = elim (Bool-cases (used (candidate start end next i))) [
    | inl busy ↦ elim (dec_lt i j) [
      | yes later ↦ scan-none rounds (i + 1) (rw busy at e) j (omega arith) (omega arith)
      | no now ↦ let same : j ≡ i = omega arith in rw same busy
    ]
    | inr idle ↦ cc (rw idle at e)
  ]

-- For a range of usable LCIs with the cursor in it, a found LCI lies in the range and is free, and every LCI that is nearer to the cursor is in use.
pub find_free-some :
    (used : ℕ → Bool) {start end next : ℕ}
    → IsRange start end next
    → (lci : ℕ) → find_free used start end next ≡ some lci
    → (start ≤ lci)
      × (lci ≤ end)
      × (used lci ≡ false)
      × ((m : ℕ)
          → start ≤ m
          → m ≤ end
          → distance start end next m < distance start end next lci
          → used m ≡ true)
unfolding find_free
find_free-some used {start} {end} {next} r lci e =
    let f = scan-some used start end next (range_size start end) 0 lci e in
    let h : f.round < end + 1 - start = omega (arith, f.to, size r) in
    let c = candidate_range r f.round h in
    (
      rw f.is_candidate c.0,
      rw f.is_candidate c.1,
      f.free,
      λ m p q near.
          let d = candidate-distance r m p q in
          let same : distance start end next lci ≡ f.round = rw f.is_candidate c.2 in
          rw d.1 at (f.passed (distance start end next m) (omega arith) (omega arith)),
    )

-- When nothing is found, for a range of usable LCIs with the cursor in it, the whole range is in use.
pub find_free-none :
    (used : ℕ → Bool) {start end next : ℕ}
    → IsRange start end next
    → find_free used start end next ≡ none
    → (m : ℕ) → start ≤ m
    → m ≤ end
    → used m ≡ true
unfolding find_free
find_free-none used {start} {end} {next} r e m p q =
    let d = candidate-distance r m p q in
    rw d.1 at (
      scan-none used start end next (range_size start end) 0 e (distance start end next m)
        (omega arith) (omega (arith, size r, d.0)))

-- In a range of usable LCIs, the LCI that was given out last is given out again, once it is free, only when every other one
-- in the range is in use.
pub find_free_last :
    (used : ℕ → Bool) {start end next : ℕ}
    → IsRange start end next
    → (lci : ℕ) → start ≤ lci
    → lci ≤ end
    → find_free used start end (advance start end lci) ≡ some lci
    → (m : ℕ) → start ≤ m
    → m ≤ end
    → m ≢ lci
    → used m ≡ true
find_free_last used {start} {end} r lci h k e m p q ne =
    (find_free-some used (advance-IsRange r lci h k) lci e).3 m p q
      (unfold distance in ground (arith, advance_lem r lci h k))
