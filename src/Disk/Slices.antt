-- ===== src/Disk/Slices.antt =====
-- Parts of a list by their positions, also in a list that was cut off.
use replex.Prelude.{
  ℕ, zero, suc, ◌+◌, ◌-◌, ◌≤◌, ◌≡◌, refl, ap, ◌∙◌, List, [], ◌∷◌, ◌++◌, length, take, drop, arith,
  length-take, take-append_length, drop-append_length,
}
use replex.Disk.{slice}

drop_nil : (n : ℕ) → drop {A = ℕ} n [] ≡ []
drop_nil zero = refl
drop_nil (suc n) = refl

take_nil : (n : ℕ) → take {A = ℕ} n [] ≡ []
take_nil zero = refl
take_nil (suc n) = refl

pub take-length : (xs : List ℕ) → take (length xs) xs ≡ xs
take-length [] = refl
take-length (x ∷ xs) = ap (λ t. x ∷ t) (take-length xs)

take-drop-take :
    (k a n : ℕ) (xs : List ℕ) → a + k ≤ n → take k (drop a (take n xs)) ≡ take k (drop a xs)
take-drop-take zero a n xs h = refl
take-drop-take (suc k) a zero xs h = absurd (omega arith)
take-drop-take (suc k) a (suc n) [] h = refl
take-drop-take (suc k) zero (suc n) (x ∷ xs) h =
    ap (λ t. x ∷ t) (take-drop-take k zero n xs (omega arith))
take-drop-take (suc k) (suc a) (suc n) (x ∷ xs) h = take-drop-take (suc k) a n xs (omega arith)

-- The part `b` of a list, which begins at `i` and ends at `j`, is there while the cut is behind it.
pub slice_part :
    (a b c xs : List ℕ) (i j n : ℕ)
    → xs ≡ a ++ (b ++ c)
    → i ≡ length a
    → j ≡ i + length b
    → j ≤ n
    → slice i j (take n xs) ≡ b
slice_part a b c xs i j n e at ends cut =
    let width : j - i ≡ length b = omega arith in
    take-drop-take (j - i) i n xs (omega arith)
    ∙ ap (λ t. take (j - i) (drop i t)) e
    ∙ ap (λ t. take (j - i) (drop t (a ++ (b ++ c)))) at
    ∙ ap (λ t. take (j - i) t) (drop-append_length a (b ++ c))
    ∙ ap (λ t. take t (b ++ c)) width
    ∙ take-append_length b c

pub append_assoc : (xs ys zs : List ℕ) → (xs ++ ys) ++ zs ≡ xs ++ (ys ++ zs)
append_assoc [] ys zs = refl
append_assoc (x ∷ xs) ys zs = ap (λ t. x ∷ t) (append_assoc xs ys zs)

pub length-take_le : (n : ℕ) (xs : List ℕ) → n ≤ length xs → length (take n xs) ≡ n
length-take_le n xs h = omega (arith, length-take n xs)

pub append_nil : (xs : List ℕ) → xs ++ [] ≡ xs
append_nil [] = refl
append_nil (x ∷ xs) = ap (λ t. x ∷ t) (append_nil xs)
