-- ===== src/Transform/Loop.antt =====
-- The loop of `apply_to`, against a description without indexes: the list in use is filtered and
-- transformed in order, and where nothing of it stays the loop goes on with the next list.
use replex.Prelude.{
  ℕ, zero, suc, ◌+◌, ◌≡◌, refl, sym, ap, ◌∙◌, true, false, none, some, List, [], ◌∷◌, ◌++◌, length,
  get_elem?, is_empty, if◌then◌else◌, arith, Bool-cases, inl, inr,
}
use replex.Metadata.{MetaData}
use replex.Transform.{
  MediaContainer, Slot, in_metadata, in_hub, in_video, in_directory, items, with_items, slot_of,
  children_mut, update_children, remove_at, set_at, Transform, turn, each_item,
}

pub items-with_items :
    (k : Slot) (xs : List MetaData) (c : MediaContainer) → items k (with_items k xs c) ≡ xs
items-with_items in_metadata xs c = refl
items-with_items in_hub xs c = refl
items-with_items in_video xs c = refl
items-with_items in_directory xs c = refl

with_items_twice :
    (k : Slot) (xs ys : List MetaData) (c : MediaContainer)
    → with_items k xs (with_items k ys c) ≡ with_items k xs c
with_items_twice in_metadata xs ys c = refl
with_items_twice in_hub xs ys c = refl
with_items_twice in_video xs ys c = refl
with_items_twice in_directory xs ys c = refl

get_elem?_middle :
    (pre : List MetaData) (x : MetaData) (rest : List MetaData)
    → get_elem? (pre ++ x ∷ rest) (length pre) ≡ some x
get_elem?_middle [] x rest = refl
get_elem?_middle (y ∷ pre) x rest = get_elem?_middle pre x rest

get_elem?_end : (pre : List MetaData) → get_elem? (pre ++ []) (length pre) ≡ none
get_elem?_end [] = refl
get_elem?_end (y ∷ pre) = get_elem?_end pre

remove_at_middle :
    (pre : List MetaData) (x : MetaData) (rest : List MetaData)
    → remove_at (length pre) (pre ++ x ∷ rest) ≡ pre ++ rest
unfolding remove_at
remove_at_middle [] x rest = refl
remove_at_middle (y ∷ pre) x rest = ap (λ t. y ∷ t) (remove_at_middle pre x rest)

set_at_middle :
    (pre : List MetaData) (x y : MetaData) (rest : List MetaData)
    → set_at (length pre) y (pre ++ x ∷ rest) ≡ (pre ++ y ∷ []) ++ rest
unfolding set_at
set_at_middle [] x y rest = refl
set_at_middle (z ∷ pre) x y rest = ap (λ t. z ∷ t) (set_at_middle pre x y rest)

append_one :
    (pre : List MetaData) (y : MetaData) (xs : List MetaData)
    → (pre ++ y ∷ []) ++ xs ≡ pre ++ y ∷ xs
append_one [] y xs = refl
append_one (z ∷ pre) y xs = ap (λ t. z ∷ t) (append_one pre y xs)

-- A unit of fuel for each item, and `f` more.
abbrev pub fuel_for : List MetaData → ℕ → ℕ
fuel_for [] f = f
fuel_for (x ∷ xs) f = suc (fuel_for xs f)

pub fuel_for-length : (xs : List MetaData) (f : ℕ) → fuel_for xs f ≡ length xs + f
fuel_for-length [] f = omega arith
fuel_for-length (x ∷ xs) f = omega (arith, fuel_for-length xs f)

length_snoc : (pre : List MetaData) (y : MetaData) → length (pre ++ y ∷ []) ≡ suc (length pre)
length_snoc [] y = refl
length_snoc (z ∷ pre) y = ap suc (length_snoc pre y)

-- The list in use is the given one, whenever it has items.
abbrev pub IsInUse : Slot → MediaContainer → Type 0
IsInUse k c = (xs : List MetaData) → is_empty xs ≡ false → slot_of (with_items k xs c) ≡ k

module _ (S : Type 0) (t : Transform S) where
  pub each_item-none :
      (f i : ℕ) (c : MediaContainer) (s : S)
      → get_elem? (children_mut c) i ≡ none
      → each_item S t (suc f) i c s ≡ (c, s)
  unfolding each_item
  each_item-none f i c s h = rw (h, each_item) refl

  each_item-some :
      (f i : ℕ) (c : MediaContainer) (s : S) (x : MetaData) (n : ℕ × MediaContainer × S)
      → get_elem? (children_mut c) i ≡ some x
      → turn S t i c s x ≡ n
      → each_item S t (suc f) i c s ≡ each_item S t f n.0 n.1 n.2
  unfolding each_item
  each_item-some f i c s x n h e = rw (h, each_item) (ap (λ m. each_item S t f m.0 m.1 m.2) e)

  -- What becomes of a list of items.
  unfoldable pub kept : List MetaData → S → List MetaData × S
  kept [] s = ([], s)
  kept (x ∷ xs) s =
      let r = t.transform_metadata x s in
      let stays = kept xs r.1 in
      let goes = kept xs s in if t.filter_metadata x s then (r.0 ∷ stays.0, stays.1) else goes

  -- Where the loop ends up after the items `done` of a list have stayed and the rest is done.
  abbrev pub finish :
      ℕ → Slot → MediaContainer → List MetaData → List MetaData × S → MediaContainer × S
  finish f k c done r =
      let all = done ++ r.0 in
      if is_empty all then each_item S t f 0 (with_items k [] c) r.1 else (with_items k all c, r.1)

  module _ (k : Slot) (c : MediaContainer) (in_use : IsInUse k c) where
    children-with_items :
        (xs : List MetaData) → is_empty xs ≡ false → children_mut (with_items k xs c) ≡ xs
    unfolding children_mut
    children-with_items xs some_items = rw (in_use xs some_items) (items-with_items k xs c)

    update-with_items :
        (f : List MetaData → List MetaData) (xs : List MetaData)
        → is_empty xs ≡ false
        → update_children f (with_items k xs c) ≡ with_items k (f xs) c
    unfolding update_children
    update-with_items f xs some_items =
        rw (in_use xs some_items, items-with_items k xs c) (with_items_twice k (f xs) xs c)

    not_empty_middle :
        (pre : List MetaData) (x : MetaData) (rest : List MetaData)
        → is_empty (pre ++ x ∷ rest) ≡ false
    not_empty_middle [] x rest = refl
    not_empty_middle (y ∷ pre) x rest = refl

    each_item_end :
        (f : ℕ) (y : MetaData) (pre : List MetaData) (s : S)
        → each_item S t f (length (y ∷ pre)) (with_items k ((y ∷ pre) ++ []) c) s
          ≡ (with_items k ((y ∷ pre) ++ []) c, s)
    each_item_end zero y pre s = unfold each_item in refl
    each_item_end (suc f) y pre s =
        each_item-none f _ _ s (rw (children-with_items ((y ∷ pre) ++ []) refl) (get_elem?_end pre))

    -- One turn on the item after those that have stayed.
    turn_stays :
        (pre rest : List MetaData) (x : MetaData) (s : S)
        → t.filter_metadata x s ≡ true
        → turn S t (length pre) (with_items k (pre ++ x ∷ rest) c) s x ≡ (
          suc (length pre),
          with_items k ((pre ++ (t.transform_metadata x s).0 ∷ []) ++ rest) c,
          (t.transform_metadata x s).1,
        )
    unfolding turn
    turn_stays pre rest x s stays =
        rw
          (
            stays,
            update-with_items (set_at (length pre) (t.transform_metadata x s).0) (pre ++ x ∷ rest)
                (not_empty_middle pre x rest),
            set_at_middle pre x (t.transform_metadata x s).0 rest,
          )
          refl

    turn_goes :
        (pre rest : List MetaData) (x : MetaData) (s : S)
        → t.filter_metadata x s ≡ false
        → turn S t (length pre) (with_items k (pre ++ x ∷ rest) c) s x
          ≡ (length pre, with_items k (pre ++ rest) c, s)
    unfolding turn
    turn_goes pre rest x s goes =
        rw
          (
            goes,
            update-with_items (remove_at (length pre)) (pre ++ x ∷ rest)
                (not_empty_middle pre x rest),
            remove_at_middle pre x rest,
          )
          refl

    each_item-turn :
        (pre rest : List MetaData) (x : MetaData) (f : ℕ) (s : S) (n : ℕ × MediaContainer × S)
        → turn S t (length pre) (with_items k (pre ++ x ∷ rest) c) s x ≡ n
        → each_item S t (suc f) (length pre) (with_items k (pre ++ x ∷ rest) c) s
          ≡ each_item S t f n.0 n.1 n.2
    each_item-turn pre rest x f s n e =
        each_item-some f _ _ s x n
          (rw (children-with_items (pre ++ x ∷ rest) (not_empty_middle pre x rest))
            (get_elem?_middle pre x rest))
          e

    pub each_item-finish :
        (rest pre : List MetaData) (f : ℕ) (s : S)
        → each_item S t (fuel_for rest f) (length pre) (with_items k (pre ++ rest) c) s
          ≡ finish f k c pre (kept rest s)
    unfolding kept
    each_item-finish [] [] f s = refl
    each_item-finish [] (y ∷ pre) f s = each_item_end f y pre s
    each_item-finish (x ∷ rest) pre f s =
        let y = (t.transform_metadata x s).0 in
        let after = (t.transform_metadata x s).1 in
        elim (Bool-cases (t.filter_metadata x s)) [
          | inl stays ↦ rw stays (
              each_item-turn pre rest x (fuel_for rest f) s _ (turn_stays pre rest x s stays)
              ∙ ap
                  (λ n.
                    each_item S t (fuel_for rest f) n (with_items k ((pre ++ y ∷ []) ++ rest) c)
                      after)
                  (sym (length_snoc pre y))
              ∙ each_item-finish rest (pre ++ y ∷ []) f after
              ∙ rw (append_one pre y (kept rest after).0) refl)
          | inr goes ↦ rw goes (
              each_item-turn pre rest x (fuel_for rest f) s _ (turn_goes pre rest x s goes)
              ∙ each_item-finish rest pre f s)
        ]
