-- ===== src/Disk/Bytes.antt =====
-- The big-endian integers and the UTF-8 check that the record format uses.
use Prim.Native.Nat.{◌/◌, ◌%◌, ◌*◌}
use replex.Prelude.{
  ℕ, zero, suc, ◌+◌, ◌<◌, ◌≡◌, refl, ◌∙◌, ◌&&◌, Bool, true, false, Option, none, some, List, [],
  ◌∷◌, ◌++◌, ltb, leb, ◌==◌, if◌then◌else◌, length, length-append, arith,
}

-- The big-endian bytes of an integer of `w` bytes.
unfoldable pub to_be_bytes : ℕ → ℕ → List ℕ
to_be_bytes zero n = []
to_be_bytes (suc w) n = to_be_bytes w (n / 256) ++ n % 256 ∷ []

read_be : ℕ → List ℕ → ℕ
read_be acc [] = acc
read_be acc (b ∷ bytes) = read_be (acc * 256 + b) bytes

unfoldable pub from_be_bytes : List ℕ → ℕ
unfolding read_be
from_be_bytes bytes = read_be 0 bytes

-- 256 ^ w
abbrev pub bound : ℕ → ℕ
bound zero = 1
bound (suc w) = 256 * bound w

read_be-append :
    (acc : ℕ) (xs : List ℕ) (b : ℕ) → read_be acc (xs ++ b ∷ []) ≡ read_be acc xs * 256 + b
unfolding read_be
read_be-append acc [] b = refl
read_be-append acc (x ∷ xs) b = read_be-append (acc * 256 + x) xs b

pub from_be_bytes-to_be_bytes : (w n : ℕ) → n < bound w → from_be_bytes (to_be_bytes w n) ≡ n
unfolding to_be_bytes from_be_bytes read_be
from_be_bytes-to_be_bytes zero n h = omega arith
from_be_bytes-to_be_bytes (suc w) n h =
    let smaller : n / 256 < bound w = omega arith in
    read_be-append 0 (to_be_bytes w (n / 256)) (n % 256)
    ∙ omega (arith, from_be_bytes-to_be_bytes w (n / 256) smaller)

pub length-to_be_bytes : (w n : ℕ) → length (to_be_bytes w n) ≡ w
unfolding to_be_bytes
length-to_be_bytes zero n = refl
length-to_be_bytes (suc w) n =
    omega (
      arith,
      length-append (to_be_bytes w (n / 256)) (n % 256 ∷ []),
      length-to_be_bytes w (n / 256),
    )

abbrev within : ℕ → ℕ → ℕ → Bool
within lo hi b = leb lo b && leb b hi

-- What follows a first byte: how many bytes, and the range of the first of them.
lead : ℕ → Option (ℕ × ℕ × ℕ)
lead b =
    if ltb b 128
    then some (0, 128, 191)
    else if within 194 223 b
    then some (1, 128, 191)
    else if b == 224
    then some (2, 160, 191)
    else if b == 237
    then some (2, 128, 159)
    else if within 225 239 b
    then some (2, 128, 191)
    else if b == 240
    then some (3, 144, 191)
    else if within 241 243 b
    then some (3, 128, 191)
    else if b == 244
    then some (3, 128, 143)
    else none

-- With `n` bytes of a character to come, the first of them in a range.
utf8_from : ℕ → ℕ → ℕ → List ℕ → Bool
unfolding lead
utf8_from zero lo hi [] = true
utf8_from (suc n) lo hi [] = false
utf8_from zero lo hi (b ∷ bytes) = elim (lead b) [
  | none ↦ false
  | some r ↦ utf8_from r.0 r.1 r.2 bytes
]
utf8_from (suc n) lo hi (b ∷ bytes) = within lo hi b && utf8_from n 128 191 bytes

-- The check of `String::from_utf8`.
unfoldable pub is_utf8 : List ℕ → Bool
unfolding utf8_from
is_utf8 bytes = utf8_from 0 128 191 bytes
