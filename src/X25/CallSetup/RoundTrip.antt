-- ===== src/X25/CallSetup/RoundTrip.antt =====
-- src/x25.go: a call request that was rebuilt with new facilities is read back.
use goxot.Base.{
  ℕ, ◌+◌, ◌*◌, ◌/◌, ◌%◌, ◌<◌, ◌≡◌, ◌∙◌, bit_and, bit_or, List, ◌∷◌, ◌++◌, ok, arith, length,
  replicate, length-append, length-replicate, take-append_length, drop-append_length,
}
use goxot.Base.Bits.{and_0f, or_nibbles, shr}
use goxot.Base.Maps.{ℕ_key}
use goxot.X25.Address.{encode, decode}
use goxot.X25.Address.RoundTrip.{canonical, two_addresses, length-encode}
use goxot.X25.CallSetup.{parse_tail, parse_body, parse_payload, build_payload}

parse_tail-append :
    (called calling fac user_data : List ℕ) (offset : ℕ)
    → parse_tail called calling offset (length fac ∷ (fac ++ user_data))
      ≡ ok (record { called = called; calling = calling; facilities = fac; user_data = user_data })
unfolding parse_tail
parse_tail-append called calling fac user_data offset = ground (
  arith,
  length-append fac user_data,
  take-append_length fac user_data,
  drop-append_length fac user_data,
)

parse_body-append :
    (m n : ℕ) (addr tail : List ℕ)
    → length addr ≡ (m + n + 1) / 2
    → parse_body m n (addr ++ tail)
      ≡ parse_tail (decode addr m 0) (decode addr n m) (1 + (m + n + 1) / 2) tail
unfolding parse_body
parse_body-append m n addr tail e = rw (← e) (
    ground
      (arith, length-append addr tail, take-append_length addr tail, drop-append_length addr tail))

-- The byte with both address lengths.
module _ (m n : ℕ) (h : m < 16) (k : n < 16) where
  lengths : ℕ
  lengths = bit_or (n * 16) (bit_and m 0x0f) % 256

  lengths_lem : lengths ≡ n * 16 + m
  unfolding lengths
  lengths_lem =
      let e : bit_and m 0x0f ≡ m = omega (arith, and_0f m (omega arith)) in
      rw e (omega (arith, or_nibbles n m k h))

  lengths_low : bit_and (bit_or (n * 16) (bit_and m 0x0f) % 256) 0x0f ≡ m
  unfolding lengths
  lengths_low = rw lengths_lem (omega (arith, and_0f (n * 16 + m) (omega arith)))

  lengths_high : shr (bit_or (n * 16) (bit_and m 0x0f) % 256) 4 ≡ n
  unfolding lengths
  lengths_high = omega (arith, lengths_lem)

-- A call setup with addresses of less than 16 digits and a facilities field of less than 256 bytes
-- parses: the addresses come back in lower case, every other character of them as 0, and the
-- facilities and the user data as they went in.
pub parse_payload-build_payload :
    (called calling fac user_data : List ℕ)
    → length called < 16
    → length calling < 16
    → length fac < 256
    → parse_payload (build_payload called calling fac user_data)
      ≡ ok (record {
        called = canonical called;
        calling = canonical calling;
        facilities = fac;
        user_data = user_data;
      })
unfolding parse_payload build_payload
parse_payload-build_payload called calling fac user_data h k l =
    let low = lengths_low (length called) (length calling) h k in
    let high = lengths_high (length called) (length calling) h k in
    let cut : length fac % 256 ≡ length fac = omega arith in
    let both = two_addresses called calling total (omega arith) in
    rw
      (
        low,
        high,
        cut,
        parse_body-append (length called) (length calling) addr (length fac ∷ (fac ++ user_data))
            size,
        both.0,
        both.1,
      )
      (parse_tail-append (canonical called) (canonical calling) fac user_data (1 + total))
  where
    total : ℕ
    total = (length called + length calling + 1) / 2

    addr : List ℕ
    addr = encode calling (length called) (encode called 0 (replicate total 0))

    size : length addr ≡ total
    size =
        length-encode calling (length called) (encode called 0 (replicate total 0))
        ∙ length-encode called 0 (replicate total 0)
        ∙ length-replicate total 0
