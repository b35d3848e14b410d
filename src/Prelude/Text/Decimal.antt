-- ===== src/Prelude/Text/Decimal.antt =====
-- Decimal numbers: `to_string` of an unsigned number, and `parse` into `usize` and `i64`.
use Prim.Native.Nat.{ℕ, zero, suc, ◌+◌, ◌-◌, ◌*◌, ◌/◌, ◌%◌, ◌^◌, ◌<◌, ◌≤◌}
use mathlib.Core.Path.{◌≡◌, ◌∙◌}
use mathlib.Core.Logic.{inl, inr}
use mathlib.Core.Bool.{Bool, false, ◌&&◌}
use mathlib.Core.Option.{Option, none, some}
use mathlib.Core.List.{List, [], ◌∷◌}
use native.Mathlib.Omega.{arith}
use replex.Prelude.Tests.{ltb, leb, ◌==◌, if◌then◌else◌, and_then, Bool-cases}
use replex.Prelude.Int.{ℤ, pos, negsuc, ◌≤ℤ◌}

-- Digits before `rest`; the fuel bounds the number of digits.
show_before : ℕ → ℕ → List ℕ → List ℕ
show_before zero n rest = rest
show_before (suc f) n rest =
    let longer = show_before f (n / 10) ((b'0' + n % 10) ∷ rest) in
    if ltb n 10 then (b'0' + n) ∷ rest else longer

unfoldable pub show : ℕ → List ℕ
unfolding show_before
show n = show_before (suc n) n []

is_digit : ℕ → Bool
is_digit c = leb b'0' c && leb c b'9'

-- The value of the digits of a text after those read so far.
read_from : ℕ → List ℕ → Option ℕ
unfolding is_digit
read_from acc [] = some acc
read_from acc (c ∷ s) =
    let rest = read_from (acc * 10 + (c - b'0')) s in if is_digit c then rest else none

read_digits : List ℕ → Option ℕ
unfolding read_from
read_digits [] = none
read_digits (c ∷ s) = read_from 0 (c ∷ s)

abbrev at_most : ℕ → ℕ → Option ℕ
at_most bound n = if leb n bound then some n else none

-- A sign is allowed: `+` for both types, `-` for signed ones.
unfoldable pub parse_usize : List ℕ → Option ℕ
unfolding read_digits
parse_usize [] = none
parse_usize (c ∷ s) =
    and_then (if c == b'+' then read_digits s else read_digits (c ∷ s)) (at_most (2 ^ 64 - 1))

abbrev negated : ℕ → ℤ
negated zero = pos 0
negated (suc n) = negsuc n

unfoldable pub parse_i64 : List ℕ → Option ℤ
unfolding read_digits
parse_i64 [] = none
parse_i64 (c ∷ s) =
    if c == b'-'
    then and_then (and_then (read_digits s) (at_most (2 ^ 63))) (λ n. some (negated n))
    else and_then
        (and_then (if c == b'+' then read_digits s else read_digits (c ∷ s)) (at_most (2 ^ 63 - 1)))
        (λ n. some (pos n))

read-show_before :
    (f n : ℕ) (rest : List ℕ) → n < f → read_from 0 (show_before f n rest) ≡ read_from n rest
unfolding show_before read_from
read-show_before zero n rest h = absurd (omega arith)
read-show_before (suc f) n rest h = elim (Bool-cases (ltb n 10)) [
  | inl small ↦ rw small (ground arith)
  | inr large ↦ rw large (read-show_before f (n / 10) _ (ground arith) ∙ last large)
]
  where
    last : ltb n 10 ≡ false → read_from (n / 10) ((b'0' + n % 10) ∷ rest) ≡ read_from n rest
    last large =
        let e : n / 10 * 10 + (b'0' + n % 10 - b'0') ≡ n = omega arith in rw e (ground arith)

-- The first character that is printed is a digit.
show_before-head :
    (f n : ℕ) (rest : List ℕ)
    → n < f
    → (c : ℕ) × (s : List ℕ) × (show_before f n rest ≡ c ∷ s) × (b'0' ≤ c) × (c ≤ b'9')
unfolding show_before
show_before-head zero n rest h = absurd (omega arith)
show_before-head (suc f) n rest h = elim (Bool-cases (ltb n 10)) [
  | inl small ↦ (b'0' + n, rest, rw small, omega arith, ground arith)
  | inr large ↦ rw large (show_before-head f (n / 10) _ (ground arith))
]

parse_usize-digit :
    (c n : ℕ) (s t : List ℕ)
    → t ≡ c ∷ s
    → b'0' ≤ c
    → c ≤ b'9'
    → read_from 0 t ≡ some n
    → n < 2 ^ 64
    → parse_usize t ≡ some n
unfolding parse_usize
parse_usize-digit c n s [] e lo hi r h = cc
parse_usize-digit c n s (d ∷ t) e lo hi r h = ground (arith, r)

-- A printed number reads back.
pub parse_usize-show : (n : ℕ) → n < 2 ^ 64 → parse_usize (show n) ≡ some n
unfolding show read_from
parse_usize-show n h =
    let r = show_before-head (suc n) n [] (omega arith) in
    parse_usize-digit r.0 n r.1 _ r.2 r.3 r.4 (read-show_before (suc n) n [] (omega arith)) h

unfoldable pub show_i64 : ℤ → List ℕ
unfolding show
show_i64 (pos n) = show n
show_i64 (negsuc n) = b'-' ∷ show (suc n)

read_digits-show : (n : ℕ) → read_digits (show n) ≡ some n
unfolding show read_digits
read_digits-show n =
    let r = show_before-head (suc n) n [] (omega arith) in
    nonempty (show_before (suc n) n []) r.0 r.1 r.2 (read-show_before (suc n) n [] (omega arith))
  where
    nonempty :
        (t : List ℕ) (c : ℕ) (s : List ℕ)
        → t ≡ c ∷ s
        → read_from 0 t ≡ some n
        → read_digits t ≡ some n
    nonempty [] c s e h = cc
    nonempty (d ∷ t) c s e h = h

parse_i64-digit :
    (c n : ℕ) (s t : List ℕ)
    → t ≡ c ∷ s
    → b'0' ≤ c
    → c ≤ b'9'
    → read_digits t ≡ some n
    → n < 2 ^ 63
    → parse_i64 t ≡ some (pos n)
unfolding parse_i64
parse_i64-digit c n s [] e lo hi r h = cc
parse_i64-digit c n s (d ∷ t) e lo hi r h = ground (arith, r)

-- An `i64` that is printed reads back.
pub parse_i64-show_i64 :
    (z : ℤ) → negsuc (2 ^ 63 - 1) ≤ℤ z → z ≤ℤ pos (2 ^ 63 - 1) → parse_i64 (show_i64 z) ≡ some z
unfolding show_i64 show
parse_i64-show_i64 (pos n) lo hi =
    let r = show_before-head (suc n) n [] (omega arith) in
    parse_i64-digit r.0 n r.1 _ r.2 r.3 r.4 (read_digits-show n) (omega arith)
parse_i64-show_i64 (negsuc n) lo hi = unfold parse_i64 in ground (arith, read_digits-show (suc n))

-- What is printed begins with a digit.
pub show-head : (n : ℕ) → (c : ℕ) × (s : List ℕ) × (show n ≡ c ∷ s) × (b'0' ≤ c) × (c ≤ b'9')
unfolding show
show-head n = show_before-head (suc n) n [] (omega arith)

-- What is read is an `i64`.
pub parse_i64_range :
    (t : List ℕ) (z : ℤ)
    → parse_i64 t ≡ some z
    → (negsuc (2 ^ 63 - 1) ≤ℤ z) × (z ≤ℤ pos (2 ^ 63 - 1))
unfolding parse_i64
parse_i64_range [] z h = cc
parse_i64_range (c ∷ s) z h = ground arith
