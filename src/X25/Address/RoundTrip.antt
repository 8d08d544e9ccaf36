-- ===== src/X25/Address/RoundTrip.antt =====
-- src/x25.go: an address that is written as digits is read back.
use goxot.Base.{
  ℕ, zero, suc, ◌+◌, ◌*◌, ◌/◌, ◌%◌, ◌≤◌, ◌<◌, ◌≡◌, refl, ◌∙◌, ap, bit_and, bit_or, List, [], ◌∷◌,
  map, arith, length, get_or, set, replicate, length-set, length-replicate, get_or-set_self, ◌==◌,
  sym, subst, get_or-set_ne, get_or-replicate, if◌then◌else◌,
}
use native.Mathlib.Decide.{ℕ_discrete}
use goxot.Base.Bits.{and_0f, or_nibbles, or_nibbles_low, shl8}
use goxot.X25.Address.{
  digit_value, hex_digit, write_nibble, encode, encode_digits, encode_bcd, nibble_at, decode,
}

-- No digit is written from the nibble `k` on, and the bytes are bytes.
record IsBlank (d : List ℕ) (k : ℕ) : Type 0 where
  bytes : (i : ℕ) → get_or d i 0 < 256
  zeros : (j : ℕ) → k ≤ j → nibble_at d j ≡ 0

digit_value-lt : (r : ℕ) → digit_value r < 16
unfolding digit_value
digit_value-lt r = ground arith

nibble_at_lem :
    (d : List ℕ) (k : ℕ)
    → get_or d (k / 2) 0 < 256
    → nibble_at d k ≡ (if k % 2 == 0 then get_or d (k / 2) 0 / 16 else get_or d (k / 2) 0 % 16)
unfolding nibble_at
nibble_at_lem d k h = ground (arith, and_0f (get_or d (k / 2) 0) h)

written_high : (b v : ℕ) → v < 16 → b / 16 ≡ 0 → bit_or b (shl8 v 4) ≡ b + v * 16
written_high b v hv z =
    let e : shl8 v 4 ≡ v * 16 = omega arith in
    rw e (omega (arith, or_nibbles_low v b hv (omega arith)))

written_low : (b v : ℕ) → v < 16 → b < 256 → b % 16 ≡ 0 → bit_or b (bit_and v 0x0f) ≡ b + v
written_low b v hv hb z =
    let e : b ≡ b / 16 * 16 = omega arith in
    let m : bit_and v 0x0f ≡ v = omega (arith, and_0f v (omega arith)) in
    rw m (subst (λ t. bit_or t v ≡ t + v) (sym e) (or_nibbles (b / 16) v (omega arith) hv))

-- The byte that is written where the nibble was 0.
added : ℕ → ℕ → ℕ → ℕ
added k v b = b + (if k % 2 == 0 then v * 16 else v)

written :
    (d : List ℕ) (k v : ℕ)
    → v < 16
    → IsBlank d k
    → write_nibble d k v ≡ set d (k / 2) (added k v (get_or d (k / 2) 0))
unfolding write_nibble added
written d k v hv b = ap (set d (k / 2)) (
    ground (
      arith,
      written_high (get_or d (k / 2) 0) v hv,
      written_low (get_or d (k / 2) 0) v hv (b.bytes (k / 2)),
      nibble_at_lem d k (b.bytes (k / 2)),
      b.zeros k (omega arith),
    ))

write_bytes :
    (d : List ℕ) (k v i : ℕ)
    → v < 16
    → k / 2 < length d
    → IsBlank d k
    → get_or (write_nibble d k v) i 0
      ≡ (if i == k / 2 then added k v (get_or d (k / 2) 0) else get_or d i 0)
write_bytes d k v i hv hk b = rw (written d k v hv b) (elim (ℕ_discrete i (k / 2)) [
  | yes same ↦ rw same (get_or-set_self d (k / 2) _ 0 hk ∙ ground arith)
  | no other ↦ get_or-set_ne d (k / 2) i _ 0 (λ e. other (sym e)) ∙ ground arith
])

write_bytes-lt :
    (d : List ℕ) (k v i : ℕ)
    → v < 16
    → k / 2 < length d
    → IsBlank d k
    → get_or (write_nibble d k v) i 0 < 256
unfolding added
write_bytes-lt d k v i hv hk b = ground (
  arith,
  write_bytes d k v i hv hk b,
  b.bytes i,
  b.bytes (k / 2),
  nibble_at_lem d k (b.bytes (k / 2)),
  b.zeros k (omega arith),
)

-- Writing a digit where the nibble was 0 sets that nibble and no other.
write_nibble_lem :
    (d : List ℕ) (k v j : ℕ)
    → v < 16
    → k / 2 < length d
    → IsBlank d k
    → nibble_at (write_nibble d k v) j ≡ (if j == k then v else nibble_at d j)
unfolding added
write_nibble_lem d k v j hv hk b = ground (
  arith,
  write_bytes d k v (j / 2) hv hk b,
  b.bytes (j / 2),
  b.bytes (k / 2),
  nibble_at_lem d k (b.bytes (k / 2)),
  nibble_at_lem d j (b.bytes (j / 2)),
  b.zeros k (omega arith),
  nibble_at_lem (write_nibble d k v) j (write_bytes-lt d k v (j / 2) hv hk b),
)

length-write_nibble : (d : List ℕ) (k v : ℕ) → length (write_nibble d k v) ≡ length d
unfolding write_nibble
length-write_nibble d k v = length-set d (k / 2) _

write_nibble-IsBlank :
    (d : List ℕ) (k v : ℕ)
    → v < 16
    → k / 2 < length d
    → IsBlank d k
    → IsBlank (write_nibble d k v) (k + 1)
write_nibble-IsBlank d k v hv hk b = record {
  bytes = λ i. write_bytes-lt d k v i hv hk b;
  zeros = λ j h. ground (arith, write_nibble_lem d k v j hv hk b, b.zeros j (omega arith));
}

pub length-encode : (addr : List ℕ) (k : ℕ) (d : List ℕ) → length (encode addr k d) ≡ length d
unfolding encode
length-encode [] k d = refl
length-encode (r ∷ addr) k d = ground (
  arith,
  length-encode addr (k + 1) (write_nibble d k (digit_value r)),
  length-write_nibble d k (digit_value r),
)

-- There is room for the digits behind the nibble `k`.
module _ (r : ℕ) (addr : List ℕ) (k : ℕ) (d : List ℕ) (room : k + suc (length addr) ≤ 2 * length d)
    (b : IsBlank d k) where
  next : List ℕ
  next = write_nibble d k (digit_value r)

  next-IsBlank : IsBlank next (k + 1)
  unfolding next
  next-IsBlank = write_nibble-IsBlank d k (digit_value r) (digit_value-lt r) (omega arith) b

  next_room : k + 1 + length addr ≤ 2 * length next
  unfolding next
  next_room = omega (arith, length-write_nibble d k (digit_value r))

  next_at : (j : ℕ) → nibble_at next j ≡ (if j == k then digit_value r else nibble_at d j)
  unfolding next
  next_at j = write_nibble_lem d k (digit_value r) j (digit_value-lt r) (omega arith) b

  encode_step : encode (r ∷ addr) k d ≡ encode addr (k + 1) next
  unfolding encode next
  encode_step = ground arith

encode_before :
    (addr : List ℕ) (k : ℕ) (d : List ℕ)
    → k + length addr ≤ 2 * length d
    → IsBlank d k
    → (j : ℕ) → j < k
    → nibble_at (encode addr k d) j ≡ nibble_at d j
encode_before [] k d room b j h = unfold encode in refl
encode_before (r ∷ addr) k d room b j h = rw (encode_step r addr k d room b) (
    encode_before addr (k + 1) (next r addr k d room b) (next_room r addr k d room b)
      (next-IsBlank r addr k d room b) j (omega arith)
    ∙ ground (arith, next_at r addr k d room b j))

encode-IsBlank :
    (addr : List ℕ) (k : ℕ) (d : List ℕ)
    → k + length addr ≤ 2 * length d
    → IsBlank d k
    → IsBlank (encode addr k d) (k + length addr)
encode-IsBlank [] k d room b = record {
  bytes = unfold encode in b.bytes;
  zeros = λ j h. unfold encode in b.zeros j (omega arith);
}
encode-IsBlank (r ∷ addr) k d room b =
    let e : k + length (r ∷ addr) ≡ k + 1 + length addr = omega arith in
    rw (e, encode_step r addr k d room b)
      (encode-IsBlank addr (k + 1) (next r addr k d room b) (next_room r addr k d room b)
        (next-IsBlank r addr k d room b))

-- The characters that come back: hexadecimal digits in lower case.
abbrev pub canonical : List ℕ → List ℕ
canonical = map (λ r. hex_digit (digit_value r))

decode_step :
    (d : List ℕ) (n k : ℕ)
    → k / 2 < length d
    → decode d (suc n) k ≡ hex_digit (nibble_at d k) ∷ decode d n (k + 1)
unfolding decode
decode_step d n k h = ground arith

decode-encode :
    (addr : List ℕ) (k : ℕ) (d : List ℕ)
    → k + length addr ≤ 2 * length d
    → IsBlank d k
    → decode (encode addr k d) (length addr) k ≡ canonical addr
decode-encode [] k d room b = unfold decode in refl
decode-encode (r ∷ addr) k d room b = rw (encode_step r addr k d room b) (
    ground (
      arith,
      decode_step (encode addr (k + 1) (next r addr k d room b)) (length addr) k,
      decode-encode addr (k + 1) (next r addr k d room b) (next_room r addr k d room b)
          (next-IsBlank r addr k d room b),
      encode_before addr (k + 1) (next r addr k d room b) (next_room r addr k d room b)
          (next-IsBlank r addr k d room b) k (omega arith),
      next_at r addr k d room b k,
      length-encode addr (k + 1) (next r addr k d room b),
      next_room r addr k d room b,
    ))

decode_ext :
    (d e : List ℕ) (n k : ℕ)
    → length d ≡ length e
    → ((j : ℕ) → j < k + n → nibble_at d j ≡ nibble_at e j)
    → decode d n k ≡ decode e n k
unfolding decode
decode_ext d e zero k l h = refl
decode_ext d e (suc n) k l h =
    ground (arith, decode_ext d e n (k + 1) l (λ j p. h j (omega arith)), h k (omega arith))

replicate-zeros : (n j : ℕ) → nibble_at (replicate n 0) j ≡ 0
unfolding nibble_at
replicate-zeros n j = ground (arith, get_or-replicate {A = ℕ} n (j / 2) 0)

replicate-IsBlank : (n : ℕ) → IsBlank (replicate n 0) 0
replicate-IsBlank n = record {
  bytes = λ i. omega (arith, get_or-replicate {A = ℕ} n i 0);
  zeros = λ j _. replicate-zeros n j;
}

-- The two addresses of a call setup, written one behind the other into bytes enough for both, are
-- read back, in lower case, and every other character as 0.
pub two_addresses :
    (called calling : List ℕ) (n : ℕ)
    → length called + length calling ≤ 2 * n
    → (decode (encode calling (length called) (encode called 0 (replicate n 0))) (length called) 0
        ≡ canonical called)
      × (decode
            (encode calling (length called) (encode called 0 (replicate n 0)))
            (length calling)
            (length called)
          ≡ canonical calling)
two_addresses called calling n h = (
  decode_ext _ _ (length called) 0 (length-encode calling (length called) d)
        (λ j p. encode_before calling (length called) d room rest j (omega arith))
      ∙ decode-encode called 0 (replicate n 0) (omega (arith, size)) (replicate-IsBlank n),
  decode-encode calling (length called) d room rest,
)
  where
    d : List ℕ
    d = encode called 0 (replicate n 0)

    size : length (replicate {A = ℕ} n 0) ≡ n
    size = length-replicate n 0

    room : length called + length calling ≤ 2 * length d
    room = omega (arith, length-encode called 0 (replicate n 0), size)

    rest : IsBlank d (length called)
    rest =
        subst (IsBlank d) (omega arith)
          (encode-IsBlank called 0 (replicate n 0) (omega (arith, size)) (replicate-IsBlank n))

encode_digits-encode :
    (addr : List ℕ) (k : ℕ) (d : List ℕ)
    → k + length addr ≤ 2 * length d
    → encode_digits addr k d ≡ encode addr k d
unfolding encode_digits encode
encode_digits-encode [] k d h = refl
encode_digits-encode (r ∷ addr) k d h =
    let size = length-write_nibble d k (digit_value r) in
    ground (
      arith,
      encode_digits-encode addr (k + 1) (write_nibble d k (digit_value r)) (omega (arith, size)),
    )

-- Reading the digits of EncodeBCD gives the address back, in lower case; every other character
-- has become 0.
pub decode-encode_bcd : (addr : List ℕ) → decode (encode_bcd addr) (length addr) 0 ≡ canonical addr
unfolding encode_bcd
decode-encode_bcd addr =
    let size : length (replicate {A = ℕ} n 0) ≡ n = length-replicate n 0 in
    rw (encode_digits-encode addr 0 (replicate n 0) (omega (arith, size)))
      (decode-encode addr 0 (replicate n 0) (omega (arith, size)) (replicate-IsBlank n))
  where
    n : ℕ
    n = (length addr + 1) / 2

-- A decoded digit survives another round.
pub digit_value-hex_digit : (v : ℕ) → v < 16 → digit_value (hex_digit v) ≡ v
unfolding digit_value hex_digit
digit_value-hex_digit v h = ground arith

-- What `decode` returns is canonical.
pub canonical-decode :
    (d : List ℕ) (n k : ℕ)
    → ((i : ℕ) → get_or d i 0 < 256)
    → canonical (decode d n k) ≡ decode d n k
unfolding decode
canonical-decode d zero k h = refl
canonical-decode d (suc n) k h = ground (
  arith,
  canonical-decode d n (k + 1) h,
  digit_value-hex_digit (nibble_at d k) (ground (arith, nibble_at_lem d k (h (k / 2)), h (k / 2))),
)

pub length-decode : (d : List ℕ) (n k : ℕ) → k + n ≤ 2 * length d → length (decode d n k) ≡ n
unfolding decode
length-decode d zero k h = refl
length-decode d (suc n) k h = ground (arith, length-decode d n (k + 1))
