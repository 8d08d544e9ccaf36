-- ===== src/Base/Bits.antt =====
-- Masks and shifts on bytes and on 16-bit words as arithmetic. Each law is a table over the
-- values of the byte or word, checked by evaluation.
use Prim.Native.Nat.{ℕ, zero, suc, ◌+◌, ◌*◌, ◌/◌, ◌%◌, ◌^◌, ◌<◌, bit_and, bit_or}
use mathlib.Core.Path.{◌≡◌, refl}
use mathlib.Core.Bool.{Bool, true, false}
use native.Mathlib.Omega.{arith}
use mathlib.Core.Logic.{inl, inr}
use goxot.Base.Tests.{◌==◌, ==_iff, Bool-cases}

abbrev pub IsByte : ℕ → Type 0
IsByte b = b < 256

abbrev pub IsU16 : ℕ → Type 0
IsU16 v = v < 2 ^ 16

-- Do two functions agree on the numbers below a bound?
same_below : (ℕ → ℕ) → (ℕ → ℕ) → ℕ → Bool
same_below f g zero = true
same_below f g (suc n) = elim (f n == g n) [ true ↦ same_below f g n | false ↦ false ]

agree : (f g : ℕ → ℕ) (n : ℕ) → same_below f g n ≡ true → (x : ℕ) → x < n → f x ≡ g x
unfolding same_below
agree f g zero table x h = absurd (omega arith)
agree f g (suc n) table x h = elim (Bool-cases (f n == g n)) [
  | inl e ↦ elim (Bool-cases (x == n)) [
    | inl same ↦ rw ((==_iff x n).0 same) ((==_iff (f n) (g n)).0 e)
    | inr other ↦ agree f g n (rw (e, same_below) at table) x (ground arith)
  ]
  | inr e ↦ cc (rw (e, same_below) at table)
]

pub and_0f : (b : ℕ) → b < 256 → bit_and b 0x0f ≡ b % 16
unfolding same_below
and_0f = agree _ _ 256 refl

pub and_f0 : (b : ℕ) → b < 256 → bit_and b 0xf0 ≡ b / 16 * 16
unfolding same_below
and_f0 = agree _ _ 256 refl

pub and_01 : (b : ℕ) → b < 256 → bit_and b 0x01 ≡ b % 2
unfolding same_below
and_01 = agree _ _ 256 refl

pub and_07 : (b : ℕ) → b < 256 → bit_and b 0x07 ≡ b % 8
unfolding same_below
and_07 = agree _ _ 256 refl

pub and_7f : (b : ℕ) → b < 256 → bit_and b 0x7f ≡ b % 128
unfolding same_below
and_7f = agree _ _ 256 refl

pub and_ff : (w : ℕ) → w < 2 ^ 16 → bit_and w 0xff ≡ w % 256
unfolding same_below
and_ff = agree _ _ 65536 refl

-- x << k on a byte and on a 16-bit word, and x >> k.
abbrev pub shl8 : ℕ → ℕ → ℕ
shl8 x k = x * 2 ^ k % 256

abbrev pub shl16 : ℕ → ℕ → ℕ
shl16 x k = x * 2 ^ k % 2 ^ 16

abbrev pub shr : ℕ → ℕ → ℕ
shr x k = x / 2 ^ k

or_split : (n : ℕ) → n < 256 → bit_or (n / 16 * 16) (n % 16) ≡ n
unfolding same_below
or_split = agree _ _ 256 refl

or_split_low : (n : ℕ) → n < 256 → bit_or (n % 16) (n / 16 * 16) ≡ n
unfolding same_below
or_split_low = agree _ _ 256 refl

or_split_word : (n : ℕ) → n < 4096 → bit_or (n / 256 * 256) (n % 256) ≡ n
unfolding same_below
or_split_word = agree _ _ 4096 refl

-- The two arguments of each of these have no bit in common.
pub or_nibbles : (h l : ℕ) → h < 16 → l < 16 → bit_or (h * 16) l ≡ h * 16 + l
or_nibbles h l p q =
    let a : (h * 16 + l) / 16 * 16 ≡ h * 16 = omega arith in
    let b : (h * 16 + l) % 16 ≡ l = omega arith in
    rw (a, b) at (or_split (h * 16 + l) (omega arith))

pub or_nibbles_low : (h l : ℕ) → h < 16 → l < 16 → bit_or l (h * 16) ≡ h * 16 + l
or_nibbles_low h l p q =
    let a : (h * 16 + l) / 16 * 16 ≡ h * 16 = omega arith in
    let b : (h * 16 + l) % 16 ≡ l = omega arith in
    rw (a, b) at (or_split_low (h * 16 + l) (omega arith))

pub or_bytes : (h l : ℕ) → h < 16 → l < 256 → bit_or (h * 256) l ≡ h * 256 + l
or_bytes h l p q =
    let a : (h * 256 + l) / 256 * 256 ≡ h * 256 = omega arith in
    let b : (h * 256 + l) % 256 ≡ l = omega arith in
    rw (a, b) at (or_split_word (h * 256 + l) (omega arith))

or_data : (n : ℕ) → n < 64 → bit_or (n / 8 * 32) (n % 8 * 2) ≡ n / 8 * 32 + n % 8 * 2
unfolding same_below
or_data = agree _ _ 64 refl

or_m_bit : (n : ℕ) → n < 64 → bit_or (n / 8 * 32 + n % 8 * 2) 0x10 ≡ n / 8 * 32 + n % 8 * 2 + 16
unfolding same_below
or_m_bit = agree _ _ 64 refl

-- P(R) and P(S) of a modulo 8 data packet, and the M bit between them.
pub or_sequence : (r s : ℕ) → r < 8 → s < 8 → bit_or (r * 32) (s * 2) ≡ r * 32 + s * 2
or_sequence r s p q =
    let a : (r * 8 + s) / 8 ≡ r = omega arith in
    let b : (r * 8 + s) % 8 ≡ s = omega arith in rw (a, b) at (or_data (r * 8 + s) (omega arith))

pub or_sequence_m : (r s : ℕ) → r < 8 → s < 8 → bit_or (r * 32 + s * 2) 0x10 ≡ r * 32 + s * 2 + 16
or_sequence_m r s p q =
    let a : (r * 8 + s) / 8 ≡ r = omega arith in
    let b : (r * 8 + s) % 8 ≡ s = omega arith in rw (a, b) at (or_m_bit (r * 8 + s) (omega arith))

pub or_low_bit : (n : ℕ) → n < 128 → bit_or (n * 2) 0x01 ≡ n * 2 + 1
unfolding same_below
or_low_bit = agree _ _ 128 refl
