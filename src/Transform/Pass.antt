-- ===== src/Transform/Pass.antt =====
-- One pass of `apply_to` over a response, list by list.
use replex.Prelude.{
  ℕ, zero, suc, ◌+◌, ◌≡◌, refl, sym, ap, ◌∙◌, true, false, List, [], ◌∷◌, is_empty, if◌then◌else◌,
  arith,
}
use replex.Metadata.{MetaData}
use replex.Transform.{
  MediaContainer, Slot, in_metadata, in_hub, in_video, in_directory, items, with_items, slot_of,
  children_mut, Transform, each_item, fuel_of,
}
use replex.Transform.Loop.{
  IsInUse, kept, finish, fuel_for, each_item-none, fuel_for-length, each_item-finish,
}

with_items_self : (k : Slot) (c : MediaContainer) → with_items k (items k c) c ≡ c
with_items_self in_metadata c = refl
with_items_self in_hub c = refl
with_items_self in_video c = refl
with_items_self in_directory c = refl

nil_of_is_empty : (xs : List MetaData) → is_empty xs ≡ true → xs ≡ []
nil_of_is_empty [] h = refl
nil_of_is_empty (x ∷ xs) h = cc

-- The order in which `children_mut` looks for a list with items.
abbrev pub order : List Slot
order = in_metadata ∷ in_hub ∷ in_video ∷ in_directory ∷ []

module _ (S : Type 0) (t : Transform S) where
  -- The lists are filtered and transformed in order, up to the first of which an item stays.
  unfoldable pub pass : List Slot → MediaContainer → S → MediaContainer × S
  unfolding kept
  pass [] c s = (c, s)
  pass (k ∷ ks) c s =
      let r = kept S t (items k c) s in
      let rest = pass ks (with_items k r.0 c) r.1 in
      if is_empty r.0 then rest else (with_items k r.0 c, r.1)

  finish-pass :
      (k : Slot) (ks : List Slot) (c : MediaContainer) (f : ℕ) (r : List MetaData × S)
      → ((s : S) → each_item S t f 0 (with_items k [] c) s ≡ pass ks (with_items k [] c) s)
      → finish S t f k c [] r
        ≡ (if is_empty r.0 then pass ks (with_items k r.0 c) r.1 else (with_items k r.0 c, r.1))
  finish-pass k ks c f ([], s) next = next s
  finish-pass k ks c f (x ∷ xs, s) next = refl

  each_item-slot :
      (k : Slot) (ks : List Slot) (c : MediaContainer) (f : ℕ) (s : S)
      → IsInUse k c
      → ((s : S) → each_item S t f 0 (with_items k [] c) s ≡ pass ks (with_items k [] c) s)
      → each_item S t (fuel_for (items k c) f) 0 c s ≡ pass (k ∷ ks) c s
  unfolding pass
  each_item-slot k ks c f s in_use next =
      ap (λ d. each_item S t (fuel_for (items k c) f) 0 d s) (sym (with_items_self k c))
      ∙ each_item-finish S t k c in_use (items k c) [] f s
      ∙ finish-pass k ks c f (kept S t (items k c) s) next

  abbrev fuel_from_video : ℕ → MediaContainer → ℕ
  fuel_from_video e c = fuel_for c.video (fuel_for c.directory e)

  -- With no items left the loop stops, whatever the fuel.
  nothing_left :
      (e : ℕ) (c : MediaContainer) (s : S)
      → c.metadata ≡ []
      → c.hub ≡ []
      → c.video ≡ []
      → c.directory ≡ []
      → each_item S t e 0 c s ≡ (c, s)
  nothing_left zero c s m h v d = unfold each_item in refl
  nothing_left (suc e) c s m h v d =
      each_item-none S t e 0 c s (unfold children_mut slot_of in rw (m, h, v, d) refl)

  from_directory :
      (e : ℕ) (c : MediaContainer) (s : S)
      → c.metadata ≡ []
      → c.hub ≡ []
      → c.video ≡ []
      → each_item S t (fuel_for c.directory e) 0 c s ≡ pass (in_directory ∷ []) c s
  from_directory e c s m h v =
      each_item-slot in_directory [] c e s
        (λ xs some_items. unfold slot_of in rw (m, h, v, some_items) refl)
        (λ s. unfold pass in nothing_left e (with_items in_directory [] c) s m h v refl)

  from_video :
      (e : ℕ) (c : MediaContainer) (s : S)
      → c.metadata ≡ []
      → c.hub ≡ []
      → each_item S t (fuel_from_video e c) 0 c s ≡ pass (in_video ∷ in_directory ∷ []) c s
  from_video e c s m h =
      each_item-slot in_video _ c (fuel_for c.directory e) s
        (λ xs some_items. unfold slot_of in rw (m, h, some_items) refl)
        (λ s. from_directory e (with_items in_video [] c) s m h refl)

  from_hub :
      (e : ℕ) (c : MediaContainer) (s : S)
      → c.metadata ≡ []
      → each_item S t (fuel_for c.hub (fuel_from_video e c)) 0 c s
        ≡ pass (in_hub ∷ in_video ∷ in_directory ∷ []) c s
  from_hub e c s m =
      each_item-slot in_hub _ c (fuel_from_video e c) s
        (λ xs some_items. unfold slot_of in rw (m, some_items) refl)
        (λ s. from_video e (with_items in_hub [] c) s m refl)

  fuel_enough :
      (e : ℕ) (c : MediaContainer)
      → fuel_for c.metadata (fuel_for c.hub (fuel_from_video e c)) ≡ fuel_of c + e
  fuel_enough e c = omega (
    arith,
    fuel_for-length c.metadata (fuel_for c.hub (fuel_from_video e c)),
    fuel_for-length c.hub (fuel_from_video e c),
    fuel_for-length c.video (fuel_for c.directory e),
    fuel_for-length c.directory e,
  )

  -- The loop of `apply_to`, which goes by index and by whichever list `children_mut` takes, filters
  -- and transforms the lists in order, up to the first of which an item stays. As many turns as the
  -- response has items are enough: more change nothing.
  pub each_item-pass :
      (e : ℕ) (c : MediaContainer) (s : S) → each_item S t (fuel_of c + e) 0 c s ≡ pass order c s
  each_item-pass e c s =
      ap (λ n. each_item S t n 0 c s) (sym (fuel_enough e c))
      ∙ each_item-slot in_metadata _ c (fuel_for c.hub (fuel_from_video e c)) s
          (λ xs some_items. unfold slot_of in rw some_items refl)
          (λ s. from_hub e (with_items in_metadata [] c) s refl)

  pass_stays :
      (k : Slot) (ks : List Slot) (c : MediaContainer) (s : S)
      → is_empty (kept S t (items k c) s).0 ≡ false
      → pass (k ∷ ks) c s ≡ (with_items k (kept S t (items k c) s).0 c, (kept S t (items k c) s).1)
  unfolding pass
  pass_stays k ks c s some_stay = rw some_stay refl

  -- Where an item of the first list stays, the other lists go out as they came, whatever the
  -- transform does to items.
  pub each_item_later_lists :
      (e : ℕ) (c : MediaContainer) (s : S)
      → is_empty (kept S t c.metadata s).0 ≡ false
      → ((each_item S t (fuel_of c + e) 0 c s).0.hub ≡ c.hub)
        × ((each_item S t (fuel_of c + e) 0 c s).0.video ≡ c.video)
        × ((each_item S t (fuel_of c + e) 0 c s).0.directory ≡ c.directory)
  each_item_later_lists e c s some_stay =
      let same = each_item-pass e c s ∙ pass_stays in_metadata _ c s some_stay in
      (ap (λ r. r.0.hub) same, ap (λ r. r.0.video) same, ap (λ r. r.0.directory) same)
