-- ===== src/Cache/Assoc.antt =====
-- An association list has the properties that `Cache` asks for.
use replex.Prelude.{
  ◌≡◌, refl, ◌↔◌, ◌⊎◌, inl, inr, Bool, true, Option, none, some, List, [], ◌∷◌, arith,
  if◌then◌else◌, Bool-cases,
}
use replex.Cache.{Cache}

module _ {K V : Type 0} (same : K → K → Bool)
    (same_iff : (a b : K) → (same a b ≡ true) ↔ (a ≡ b)) where
  unfoldable pub find_key : List (K × V) → K → Option V
  find_key [] k = none
  find_key ((j, v) ∷ s) k = if same j k then some v else find_key s k

  unfoldable pub remove_key : List (K × V) → K → List (K × V)
  remove_key [] k = []
  remove_key ((j, v) ∷ s) k = let rest = remove_key s k in if same j k then rest else (j, v) ∷ rest

  find-insert :
      (s : List (K × V)) (k j : K) (v w : V)
      → find_key ((k, v) ∷ s) j ≡ some w
      → ((k ≡ j) × (w ≡ v)) ⊎ (find_key s j ≡ some w)
  unfolding find_key
  find-insert s k j v w h = elim (Bool-cases (same k j)) [
    | inl t ↦ inl ((same_iff k j).0 t, ground arith)
    | inr f ↦ inr (ground arith)
  ]

  find-remove_self : (s : List (K × V)) (k : K) → find_key (remove_key s k) k ≡ none
  unfolding find_key remove_key
  find-remove_self [] k = refl
  find-remove_self ((j, v) ∷ s) k = ground (arith, find-remove_self s k)

  find-remove :
      (s : List (K × V)) (k j : K) (w : V)
      → find_key (remove_key s k) j ≡ some w
      → find_key s j ≡ some w
  unfolding find_key remove_key
  find-remove [] k j w h = cc
  find-remove ((i, v) ∷ s) k j w h = elim (Bool-cases (same i k)) [
    | inl t ↦ elim (Bool-cases (same i j)) [
      | inl u ↦ absurd (gone t u (rw t at h))
      | inr f ↦ rw f (find-remove s k j w (rw t at h))
    ]
    | inr f ↦ elim (Bool-cases (same i j)) [
      | inl u ↦ rw u (rw (f, u, find_key) at h)
      | inr g ↦ rw g (find-remove s k j w (rw (f, g, find_key) at h))
    ]
  ]
    where
      gone : same i k ≡ true → same i j ≡ true → find_key (remove_key s k) j ≡ some w → ⊥
      gone t u e =
          let p : k ≡ j = ground (arith, (same_iff i k).0 t, (same_iff i j).0 u) in
          ground (arith, find-remove_self s j, rw p at e)

  unfoldable pub assoc : Cache K V
  unfolding find_key remove_key find-insert find-remove_self find-remove
  assoc = record {
    Store = List (K × V);
    empty = [];
    lookup = find_key;
    insert = λ s k v. (k, v) ∷ s;
    invalidate = remove_key;
    invalidate_all = λ s. [];
    lookup-empty = λ k. refl;
    lookup-insert = find-insert;
    lookup-invalidate_self = find-remove_self;
    lookup-invalidate = find-remove;
    lookup-invalidate_all = λ s k. refl;
  }
