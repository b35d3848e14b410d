-- ===== src/Transform/Interleave/Hidden.antt =====
-- Merging rows makes no hidden collection of rows that may be shown.
use replex.Prelude.{
  ◌≡◌, refl, Option, some, List, [], ◌∷◌, All, All-append, inl, inr, arith, Bool-cases,
  Option-cases,
}
use replex.Prelude.Text.{text_eq}
use replex.Prelude.Int.{ℤ}
use replex.Policy.Entries.{ResolutionPolicy}
use replex.Config.{Config}
use replex.Metadata.{MetaData, item_of, with_item, is_collection_hub}
use replex.Transform.{
  MediaContainer, Slot, in_metadata, in_hub, in_video, in_directory, with_items, slot_of,
  children_mut,
}
use replex.Transform.Policy.Safety.{bare}
use replex.Metadata.Children.{children, set_children}
use replex.Transform.Chain.{InOneList, one_list, Takes}
use replex.Transform.Hubs.{has_no_size}
use replex.Transform.Hubs.Hidden.{Shown, Shown-with_item, Shown-set_children}
use replex.Transform.Interleave.{
  Itertools, merge_children_keys, merged, absorb, add_hub, add_hubs, set_children_mut,
  interleave_hubs, hub_interleave,
}

module _ (policy : ResolutionPolicy) (itertools : Itertools) where
  Shown-merged :
      (v hub w : MetaData) → Shown policy v → merged itertools v hub ≡ some w → Shown policy w
  unfolding merged
  Shown-merged v hub w p e = elim (Option-cases (item_of v).key) [
    | inl keyless ↦ absurd (ground arith)
    | inr (left_key, l) ↦ elim (Option-cases (item_of hub).key) [
      | inl keyless ↦ absurd (ground arith)
      | inr (right_key, r) ↦
          let keyed =
            with_item v
              (record (item_of v) { key = some (merge_children_keys left_key right_key) }) in
          let set : set_children keyed (itertools.interleave (children keyed) (children hub)) ≡ w =
            ground arith in
          rw (← set) (
            Shown-set_children policy _ _
              (Shown-with_item policy v _ (refl, refl, refl) (λ k. k) p))
    ]
  ]

  All-absorb :
      (hub : MetaData) (vs : List MetaData)
      → Shown policy hub
      → All (Shown policy) vs
      → All (Shown policy) (absorb itertools hub vs)
  unfolding absorb
  All-absorb hub [] p h = (p, tt)
  All-absorb hub (v ∷ vs) p h = elim (Bool-cases (text_eq (item_of v).title (item_of hub).title)) [
    | inr other ↦ rw other (h.0, All-absorb hub vs p h.1)
    | inl same ↦ elim (Option-cases (merged itertools v hub)) [
      | inl keyless ↦ rw (same, keyless) (h.0, All-append (Shown policy) vs (hub ∷ []) h.1 (p, tt))
      | inr (w, e) ↦ rw (same, e) (Shown-merged v hub w h.0 e, h.1)
    ]
  ]

  All-add_hub :
      (vs : List MetaData) (hub : MetaData)
      → All (Shown policy) vs
      → Shown policy hub
      → All (Shown policy) (add_hub itertools vs hub)
  unfolding add_hub
  All-add_hub vs hub h p = elim (Bool-cases (has_no_size hub)) [
    | inl none_left ↦ rw none_left h
    | inr some_size ↦ elim (Bool-cases (is_collection_hub hub)) [
      | inl collection ↦ rw (some_size, collection) (All-absorb hub vs p h)
      | inr native ↦ rw (some_size, native) (All-append (Shown policy) vs (hub ∷ []) h (p, tt))
    ]
  ]

  All-add_hubs :
      (vs hubs : List MetaData)
      → All (Shown policy) vs
      → All (Shown policy) hubs
      → All (Shown policy) (add_hubs itertools vs hubs)
  unfolding add_hubs
  All-add_hubs vs [] h k = h
  All-add_hubs vs (hub ∷ hubs) h k =
      All-add_hubs (add_hub itertools vs hub) hubs (All-add_hub vs hub h k.0) k.1

module _ (P : MetaData → Type 0) where
  All-children_mut :
      (k : Slot) (n : Option ℤ) (xs : List MetaData)
      → All P xs
      → All P (children_mut (with_items k xs (bare n)))
  unfolding children_mut slot_of
  All-children_mut in_metadata n [] h = tt
  All-children_mut in_metadata n (x ∷ xs) h = h
  All-children_mut in_hub n [] h = tt
  All-children_mut in_hub n (x ∷ xs) h = h
  All-children_mut in_video n [] h = tt
  All-children_mut in_video n (x ∷ xs) h = h
  All-children_mut in_directory n [] h = tt
  All-children_mut in_directory n (x ∷ xs) h = h

  set_children_mut-InOneList :
      (k : Slot) (n : Option ℤ) (xs value : List MetaData)
      → All P value
      → InOneList P (set_children_mut value (with_items k xs (bare n)))
  unfolding set_children_mut children_mut slot_of
  set_children_mut-InOneList in_metadata n [] value h = one_list in_metadata _ [] tt
  set_children_mut-InOneList in_metadata n (x ∷ xs) value h = one_list in_metadata _ value h
  set_children_mut-InOneList in_hub n [] value h = one_list in_hub _ [] tt
  set_children_mut-InOneList in_hub n (x ∷ xs) value h = one_list in_hub _ value h
  set_children_mut-InOneList in_video n [] value h = one_list in_video _ [] tt
  set_children_mut-InOneList in_video n (x ∷ xs) value h = one_list in_video _ value h
  set_children_mut-InOneList in_directory n [] value h = one_list in_directory _ [] tt
  set_children_mut-InOneList in_directory n (x ∷ xs) value h = one_list in_directory _ value h

module _ (policy : ResolutionPolicy) (itertools : Itertools) (config : Config) where
  interleave_hubs-InOneList :
      (c : MediaContainer)
      → InOneList (Shown policy) c
      → InOneList (Shown policy) (interleave_hubs itertools config c)
  unfolding interleave_hubs
  interleave_hubs-InOneList c (one_list k n xs h) = elim (Bool-cases config.interleave) [
    | inr off ↦ rw off (one_list k n xs h)
    | inl on ↦ rw on (
        set_children_mut-InOneList (Shown policy) k n xs _ (
          All-add_hubs policy itertools [] (children_mut (with_items k xs (bare n))) tt
            (All-children_mut (Shown policy) k n xs h)))
  ]

  pub hub_interleave-Keeps :
      (S : Type 0) → Takes S (hub_interleave itertools config S) (Shown policy) (Shown policy)
  hub_interleave-Keeps S = record { each = λ x s stays p. p; whole = interleave_hubs-InOneList }
