-- ===== src/Base/Hex.antt =====
-- hex.DecodeString of Go's standard library, on the characters of a text.
use Prim.Native.Nat.{ℕ, ◌+◌, ◌-◌, ◌*◌, ◌<◌}
use mathlib.Core.Path.{◌≡◌, subst}
use mathlib.Core.Bool.{◌&&◌}
use mathlib.Core.Option.{Option, none, some}
use mathlib.Core.List.{List, [], ◌∷◌}
use native.Mathlib.Omega.{arith}
use goxot.Base.Tests.{leb, if◌then◌else◌}
use goxot.Base.Lists.{All}
use goxot.Base.Bits.{IsByte}

unfoldable pub from_hex_char : ℕ → Option ℕ
from_hex_char c =
    if leb b'0' c && leb c b'9'
    then some (c - b'0')
    else if leb b'a' c && leb c b'f'
    then some (c - b'a' + 10)
    else if leb b'A' c && leb c b'F'
    then some (c - b'A' + 10)
    else none

-- The two digits of a byte, before the bytes that follow.
join_digits : Option ℕ → Option ℕ → Option (List ℕ) → Option (List ℕ)
join_digits none low rest = none
join_digits (some a) none rest = none
join_digits (some a) (some b) none = none
join_digits (some a) (some b) (some rest) = some ((a * 16 + b) ∷ rest)

-- `none` is an error: a character that is no hexadecimal digit, or an odd number of them.
unfoldable pub decode_hex : List ℕ → Option (List ℕ)
unfolding join_digits from_hex_char
decode_hex [] = some []
decode_hex (h ∷ []) = none
decode_hex (h ∷ l ∷ text) = join_digits (from_hex_char h) (from_hex_char l) (decode_hex text)

abbrev IsDigit : Option ℕ → Type 0
IsDigit none = Unit {0}
IsDigit (some a) = a < 16

abbrev AreBytes : Option (List ℕ) → Type 0
AreBytes none = Unit {0}
AreBytes (some bytes) = All IsByte bytes

from_hex_char-IsDigit : (c : ℕ) → IsDigit (from_hex_char c)
unfolding from_hex_char
from_hex_char-IsDigit c = ground arith

join_digits-AreBytes :
    (a b : Option ℕ) (rest : Option (List ℕ))
    → IsDigit a
    → IsDigit b
    → AreBytes rest
    → AreBytes (join_digits a b rest)
unfolding join_digits
join_digits-AreBytes none b rest p q r = tt
join_digits-AreBytes (some a) none rest p q r = tt
join_digits-AreBytes (some a) (some b) none p q r = tt
join_digits-AreBytes (some a) (some b) (some rest) p q r = (omega arith, r)

decode_hex-AreBytes : (text : List ℕ) → AreBytes (decode_hex text)
unfolding decode_hex
decode_hex-AreBytes [] = tt
decode_hex-AreBytes (h ∷ []) = tt
decode_hex-AreBytes (h ∷ l ∷ text) =
    join_digits-AreBytes (from_hex_char h) (from_hex_char l) (decode_hex text)
      (from_hex_char-IsDigit h) (from_hex_char-IsDigit l) (decode_hex-AreBytes text)

-- What a text decodes to is bytes.
pub decode_hex-IsByte :
    (text : List ℕ) {bytes : List ℕ} → decode_hex text ≡ some bytes → All IsByte bytes
decode_hex-IsByte text e = subst AreBytes e (decode_hex-AreBytes text)
