-- ===== src/Prelude/Predicates.antt =====
-- Membership and universal predicates over lists, with the laws of `filter`, `find`, `any` and
-- `position`. `Memᴰ x xs` is a place of `xs` at which `x` stands.
use Prim.Native.Nat.{ℕ, zero, suc, ◌<◌}
use mathlib.Core.Path.{◌≡◌, refl}
use mathlib.Core.Bool.{Bool, true, false}
use mathlib.Core.Logic.{inl, inr}
use mathlib.Core.List.{List, [], ◌∷◌, ◌++◌, Memᴰ}
use mathlib.Core.Option.{none, some}
use native.Mathlib.Omega.{arith}
use replex.Prelude.Tests.{Bool-cases}
use replex.Prelude.Lists.{length, get_elem?, filter, find, any, position}

module _ {ℓ} {A : Type ℓ} where
  abbrev pub All {κ} : (A → Type κ) → List A → Type κ
  All P [] = Unit
  All P (x ∷ xs) = P x × All P xs

  pub All-append {κ} : (P : A → Type κ) (xs ys : List A) → All P xs → All P ys → All P (xs ++ ys)
  All-append P [] ys h k = k
  All-append P (x ∷ xs) ys h k = (h.0, All-append P xs ys h.1 k)

  pub All-mem {κ} : (P : A → Type κ) (x : A) {xs : List A} → All P xs → Memᴰ x xs → P x
  All-mem P x h (Memᴰ.head e) = rw e h.0
  All-mem P x h (Memᴰ.tail m) = All-mem P x h.1 m

  module _ (p : A → Bool) where
    pub filter-true : (x : A) (xs : List A) → p x ≡ true → filter p (x ∷ xs) ≡ x ∷ filter p xs
    unfolding filter
    filter-true x xs h = rw h

    pub filter-false : (x : A) (xs : List A) → p x ≡ false → filter p (x ∷ xs) ≡ filter p xs
    unfolding filter
    filter-false x xs h = rw h

    pub All-filter : (xs : List A) → All (λ x. p x ≡ true) (filter p xs)
    unfolding filter
    All-filter [] = tt
    All-filter (x ∷ xs) = elim (Bool-cases (p x)) [
      | inl h ↦ rw h (h, All-filter xs)
      | inr h ↦ rw h (All-filter xs)
    ]

    pub mem-filter : {x : A} {xs : List A} → Memᴰ x xs → p x ≡ true → Memᴰ x (filter p xs)
    mem-filter {x} (Memᴰ.head {x = y} {xs = ys} e) h =
        rw (filter-true y ys (rw (← e) h)) (Memᴰ.head e)
    mem-filter {x} (Memᴰ.tail {x = y} {xs = ys} m) h = elim (Bool-cases (p y)) [
      | inl k ↦ rw (filter-true y ys k) (Memᴰ.tail (mem-filter m h))
      | inr k ↦ rw (filter-false y ys k) (mem-filter m h)
    ]

    filter_step :
        (x y : A) (ys : List A)
        → (Memᴰ x (filter p ys) → Memᴰ x ys)
        → Memᴰ x (filter p (y ∷ ys))
        → Memᴰ x (y ∷ ys)
    filter_step x y ys back m = elim (Bool-cases (p y)) [
      | inl k ↦ kept (rw (filter-true y ys k) at m)
      | inr k ↦ Memᴰ.tail (back (rw (filter-false y ys k) at m))
    ]
      where
        kept : Memᴰ x (y ∷ filter p ys) → Memᴰ x (y ∷ ys)
        kept (Memᴰ.head e) = Memᴰ.head e
        kept (Memᴰ.tail n) = Memᴰ.tail (back n)

    pub mem_of_mem-filter : {x : A} (xs : List A) → Memᴰ x (filter p xs) → Memᴰ x xs
    unfolding filter
    mem_of_mem-filter [] m = elim m [ ]
    mem_of_mem-filter {x} (y ∷ ys) m = filter_step x y ys (mem_of_mem-filter ys) m

    pub test_of_mem-filter : {x : A} (xs : List A) → Memᴰ x (filter p xs) → p x ≡ true
    test_of_mem-filter {x} xs m = All-mem (λ y. p y ≡ true) x (All-filter xs) m

    pub filter-nil : (xs : List A) → filter p xs ≡ [] → All (λ x. p x ≡ false) xs
    unfolding filter
    filter-nil [] h = tt
    filter-nil (x ∷ xs) h = (ground arith, filter-nil xs (ground arith))

    pub find-some : (x : A) (xs : List A) → find p xs ≡ some x → p x ≡ true
    unfolding find
    find-some x [] h = cc
    find-some x (y ∷ ys) h = ground (arith, find-some x ys)

    pub find-mem : (x : A) (xs : List A) → find p xs ≡ some x → Memᴰ x xs
    unfolding find
    find-mem x [] h = cc
    find-mem x (y ∷ ys) h = elim (Bool-cases (p y)) [
      | inl k ↦ Memᴰ.head (ground arith)
      | inr k ↦ Memᴰ.tail (find-mem x ys (ground arith))
    ]

    pub find-none : (xs : List A) → find p xs ≡ none → All (λ x. p x ≡ false) xs
    unfolding find
    find-none [] h = tt
    find-none (y ∷ ys) h = (ground arith, find-none ys (ground arith))

    pub any-false : (xs : List A) → any p xs ≡ false → All (λ x. p x ≡ false) xs
    unfolding any
    any-false [] h = tt
    any-false (y ∷ ys) h = (ground arith, any-false ys (ground arith))

    pub any-mem : {x : A} {xs : List A} → Memᴰ x xs → p x ≡ true → any p xs ≡ true
    unfolding any
    any-mem {x} (Memᴰ.head {x = y} {xs = ys} e) h = let k : p y ≡ true = rw (← e) h in rw k
    any-mem (Memᴰ.tail {x = y} {xs = ys} m) h = ground (arith, any-mem m h)

    pub any-true : (xs : List A) → any p xs ≡ true → (x : A) × Memᴰ x xs × (p x ≡ true)
    unfolding any
    any-true [] h = cc
    any-true (y ∷ ys) h = elim (Bool-cases (p y)) [
      | inl k ↦ (y, Memᴰ.head refl, k)
      | inr k ↦ let r = any-true ys (ground arith) in (r.0, Memᴰ.tail r.1, r.2)
    ]

    pub position-some :
        (xs : List A) (i : ℕ)
        → position p xs ≡ some i
        → (x : A) × (get_elem? xs i ≡ some x) × (p x ≡ true)
    unfolding position
    position-some [] i h = cc
    position-some (y ∷ ys) zero h = (y, refl, ground arith)
    position-some (y ∷ ys) (suc i) h = position-some ys i (ground arith)

    pub position_of_mem :
        {x : A} {xs : List A} → Memᴰ x xs → p x ≡ true → (i : ℕ) × (position p xs ≡ some i)
    unfolding position
    position_of_mem {x} (Memᴰ.head {x = y} {xs = ys} e) h =
        let k : p y ≡ true = rw (← e) h in (0, rw k)
    position_of_mem (Memᴰ.tail {x = y} {xs = ys} m) h = elim (Bool-cases (p y)) [
      | inl k ↦ (0, rw k)
      | inr k ↦ let r = position_of_mem m h in (suc r.0, rw (k, r.1))
    ]

  pub mem_of_get_elem? : (xs : List A) (i : ℕ) (x : A) → get_elem? xs i ≡ some x → Memᴰ x xs
  mem_of_get_elem? [] i x h = cc
  mem_of_get_elem? (y ∷ ys) zero x h = Memᴰ.head (ground arith)
  mem_of_get_elem? (y ∷ ys) (suc i) x h = Memᴰ.tail (mem_of_get_elem? ys i x h)

  pub lt_of_get_elem? : (xs : List A) (i : ℕ) (x : A) → get_elem? xs i ≡ some x → i < length xs
  lt_of_get_elem? [] i x h = cc
  lt_of_get_elem? (y ∷ ys) zero x h = omega arith
  lt_of_get_elem? (y ∷ ys) (suc i) x h = omega (arith, lt_of_get_elem? ys i x h)
