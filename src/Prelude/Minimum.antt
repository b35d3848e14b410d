-- ===== src/Prelude/Minimum.antt =====
-- `Iterator::min_by` and `min_by_key`: the first of the least elements.
use mathlib.Core.Path.{◌≡◌, refl}
use mathlib.Core.Logic.{inl, inr}
use mathlib.Core.Bool.{Bool, true, false}
use mathlib.Core.List.{List, [], ◌∷◌, ◌++◌, append_assoc, append-nil, Memᴰ}
use mathlib.Core.Option.{Option, none, some}
use native.Mathlib.Omega.{arith}
use replex.Prelude.Tests.{if◌then◌else◌, Bool-cases}
use replex.Prelude.Predicates.{All, All-append}

-- `less a b`: the key of `a` is less than that of `b`.
pub record IsOrder {ℓ} {A : Type ℓ} (less : A → A → Bool) : Type ℓ where
  pub asym : (a b : A) → less a b ≡ true → less b a ≡ false
  pub chain : (a b c : A) → less a b ≡ true → less c b ≡ false → less a c ≡ true

-- `r` is the first of the least elements of `xs`.
pub record IsFirstMin {ℓ} {A : Type ℓ} (less : A → A → Bool) (xs : List A) (r : A) : Type ℓ where
  pub before : List A
  pub after : List A
  pub splits : xs ≡ before ++ r ∷ after
  pub earlier : All (λ z. less r z ≡ true) before
  pub later : All (λ z. less z r ≡ false) after

module _ {ℓ} {A : Type ℓ} (less : A → A → Bool) where
  unfoldable pub min_from : A → List A → A
  min_from x [] = x
  min_from x (y ∷ ys) = min_from (if less y x then y else x) ys

  unfoldable pub min_by : List A → Option A
  unfolding min_from
  min_by [] = none
  min_by (x ∷ xs) = some (min_from x xs)

module _ {ℓ} {A : Type ℓ} {less : A → A → Bool} (order : IsOrder less) where
  below-All :
      (a b : A) (zs : List A)
      → less a b ≡ true
      → All (λ z. less z b ≡ false) zs
      → All (λ z. less a z ≡ true) zs
  below-All a b [] h k = tt
  below-All a b (z ∷ zs) h k = (order.chain a b z h k.0, below-All a b zs h k.1)

  asym-All : (b : A) (zs : List A) → All (λ z. less b z ≡ true) zs → All (λ z. less z b ≡ false) zs
  asym-All b [] h = tt
  asym-All b (z ∷ zs) h = (order.asym b z h.0, asym-All b zs h.1)

  min_from_lem :
      (before between ys : List A) (x : A)
      → All (λ z. less x z ≡ true) before
      → All (λ z. less z x ≡ false) between
      → IsFirstMin less (before ++ x ∷ (between ++ ys)) (min_from less x ys)
  unfolding min_from
  min_from_lem before between [] x h k = record {
    before = before;
    after = between;
    splits = rw append-nil;
    earlier = h;
    later = k;
  }
  min_from_lem before between (y ∷ ys) x h k = elim (Bool-cases (less y x)) [
    | inl lower ↦
        rw (lower, ← append_assoc before (x ∷ between) (y ∷ ys))
          (min_from_lem (before ++ x ∷ between) [] ys y
            (All-append (λ z. less y z ≡ true) before (x ∷ between)
              (below-All y x before lower (asym-All x before h))
              (lower, below-All y x between lower k))
            tt)
    | inr higher ↦
        rw (higher, ← append_assoc between (y ∷ []) ys)
          (min_from_lem before (between ++ y ∷ []) ys x h
            (All-append (λ z. less z x ≡ false) between (y ∷ []) k (higher, tt)))
  ]

  -- On a list that is not empty `min_by` returns the first of the least elements.
  pub min_by-IsFirstMin : (xs : List A) (r : A) → min_by less xs ≡ some r → IsFirstMin less xs r
  unfolding min_by
  min_by-IsFirstMin [] r h = cc
  min_by-IsFirstMin (x ∷ xs) r h =
      let e : min_from less x xs ≡ r = ground arith in rw (← e) (min_from_lem [] [] xs x tt tt)

pub min_by-none {ℓ} :
    {A : Type ℓ} (less : A → A → Bool) (xs : List A) → min_by less xs ≡ none → xs ≡ []
unfolding min_by
min_by-none less [] h = refl
min_by-none less (x ∷ xs) h = cc

mem_middle {ℓ} : {A : Type ℓ} (xs ys : List A) (r : A) → Memᴰ r (xs ++ r ∷ ys)
mem_middle [] ys r = Memᴰ.head refl
mem_middle (x ∷ xs) ys r = Memᴰ.tail (mem_middle xs ys r)

pub IsFirstMin-mem {ℓ} :
    {A : Type ℓ} {less : A → A → Bool} (xs : List A) (r : A) → IsFirstMin less xs r → Memᴰ r xs
IsFirstMin-mem xs r m = rw m.splits (mem_middle m.before m.after r)
