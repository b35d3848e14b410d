-- ===== src/Transform/Interleave/Keeps.antt =====
-- That merging rows loses no item and invents none.
use mathlib.Core.List.{Permᴰ}
use mathlib.Core.List.Permᴰ
use replex.Prelude.{
  ◌≡◌, refl, sym, ap, ◌∙◌, inl, inr, true, false, not, some, List, [], ◌∷◌, ◌++◌, arith, All,
  All-append, is_empty, filter, Bool-cases, Option-cases,
}
use replex.Prelude.Text.{text_eq}
use replex.Config.{Config}
use replex.Metadata.{MetaData, item_of, with_item, is_collection_hub}
use replex.Metadata.Children.{children, set_children}
use replex.Prelude.{Option}
use replex.Prelude.Int.{ℤ}
use replex.Transform.{
  MediaContainer, Slot, in_metadata, in_hub, in_video, in_directory, slot_of, items, children_mut,
}
use replex.Transform.Loop.{items-with_items}
use replex.Transform.Hubs.{has_no_size}
use replex.Transform.Interleave.Items.{
  HasItems, all_items, children-with_item, children-set_children, append_assoc, all_items-append,
  append_nil, Permᴰ-eq,
}
use replex.Transform.Interleave.{
  Itertools, merge_children_keys, set_children_mut, merged, absorb, add_hub, add_hubs,
  interleave_hubs,
}

module _ (itertools : Itertools) where
  Permᴰ-interleave : (xs ys : List MetaData) → Permᴰ (xs ++ ys) (itertools.interleave xs ys)
  Permᴰ-interleave [] ys = Permᴰ-eq (sym (itertools.interleave_right ys))
  Permᴰ-interleave (x ∷ xs) [] =
      Permᴰ-eq (append_nil (x ∷ xs) ∙ sym (itertools.interleave_left (x ∷ xs)))
  Permᴰ-interleave (x ∷ xs) (y ∷ ys) =
      Permᴰ.trans
        (Permᴰ.cons refl
          (Permᴰ.trans (Permᴰ.middle y xs ys) (Permᴰ.cons refl (Permᴰ-interleave xs ys))))
        (Permᴰ-eq (sym (itertools.interleave_turn x y xs ys)))

  interleave_some :
      (xs ys : List MetaData)
      → is_empty xs ≡ false
      → is_empty ys ≡ false
      → is_empty (itertools.interleave xs ys) ≡ false
  interleave_some [] ys h k = absurd (ground arith)
  interleave_some (x ∷ xs) [] h k = absurd (ground arith)
  interleave_some (x ∷ xs) (y ∷ ys) h k = rw (itertools.interleave_turn x y xs ys) refl

  -- What a merged row holds.
  children-merged :
      (v hub w : MetaData)
      → HasItems v
      → HasItems hub
      → merged itertools v hub ≡ some w
      → children w ≡ itertools.interleave (children v) (children hub)
  unfolding merged
  children-merged v hub w hv hh e = elim (Option-cases (item_of v).key) [
    | inl keyless ↦ absurd (ground arith)
    | inr (left_key, l) ↦ elim (Option-cases (item_of hub).key) [
      | inl keyless ↦ absurd (ground arith)
      | inr (right_key, r) ↦
          let keyed =
            with_item v
              (record (item_of v) { key = some (merge_children_keys left_key right_key) }) in
          let same : children keyed ≡ children v = children-with_item v _ in
          let set : set_children keyed (itertools.interleave (children keyed) (children hub)) ≡ w =
            ground arith in
          ap children (sym set)
          ∙ children-set_children keyed (itertools.interleave (children keyed) (children hub))
              (ap is_empty same ∙ hv)
              (interleave_some (children keyed) (children hub) (ap is_empty same ∙ hv) hh)
          ∙ ap (λ t. itertools.interleave t (children hub)) same
    ]
  ]

  -- A row that is taken in: the items before, with those of the row, are the items after.
  abbrev Takes : MetaData → List MetaData → List MetaData → Type 0
  Takes hub before after =
      Permᴰ (all_items before ++ children hub) (all_items after) × All HasItems after

  pushed :
      (hub : MetaData) (vs : List MetaData)
      → HasItems hub
      → All HasItems vs
      → Takes hub vs (vs ++ hub ∷ [])
  pushed hub vs hh h = (
    Permᴰ-eq (
        ap (λ t. all_items vs ++ t) (sym (append_nil (children hub)))
        ∙ sym (all_items-append vs (hub ∷ []))),
    All-append HasItems vs (hub ∷ []) h (hh, tt),
  )

  taken_in :
      (v hub w : MetaData) (vs : List MetaData)
      → HasItems v
      → HasItems hub
      → All HasItems vs
      → merged itertools v hub ≡ some w
      → Takes hub (v ∷ vs) (w ∷ vs)
  taken_in v hub w vs hv hh h e =
      let V = children v in
      let H = children hub in
      let A = all_items vs in
      let c : children w ≡ itertools.interleave V H = children-merged v hub w hv hh e in
      (
        Permᴰ.trans (Permᴰ-eq (append_assoc V A H)) (
            Permᴰ.trans (Permᴰ.append_left V (Permᴰ.append_comm A H)) (
              Permᴰ.trans (Permᴰ-eq (sym (append_assoc V H A))) (
                Permᴰ.trans (Permᴰ.append_right A (Permᴰ-interleave V H))
                  (Permᴰ-eq (ap (λ t. t ++ A) (sym c)))))),
        (ap is_empty c ∙ interleave_some V H hv hh, h),
      )

  passed :
      (v hub : MetaData) (vs ws : List MetaData)
      → HasItems v
      → Takes hub vs ws
      → Takes hub (v ∷ vs) (v ∷ ws)
  passed v hub vs ws hv (p, h) = (
    Permᴰ.trans (Permᴰ-eq (append_assoc (children v) (all_items vs) (children hub)))
        (Permᴰ.append_left (children v) p),
    (hv, h),
  )

  absorb-Takes :
      (hub : MetaData) (vs : List MetaData)
      → HasItems hub
      → All HasItems vs
      → Takes hub vs (absorb itertools hub vs)
  unfolding absorb
  absorb-Takes hub [] hh h = pushed hub [] hh tt
  absorb-Takes hub (v ∷ vs) hh h =
      elim (Bool-cases (text_eq (item_of v).title (item_of hub).title)) [
        | inr other ↦ rw other (passed v hub vs _ h.0 (absorb-Takes hub vs hh h.1))
        | inl same ↦ elim (Option-cases (merged itertools v hub)) [
          | inl keyless ↦ rw (same, keyless) (passed v hub vs _ h.0 (pushed hub vs hh h.1))
          | inr (w, e) ↦ rw (same, e) (taken_in v hub w vs h.0 hh h.1 e)
        ]
      ]

  -- The rows that have a size.
  abbrev pub with_size : List MetaData → List MetaData
  with_size hubs = filter (λ hub. not (has_no_size hub)) hubs

  add_hub_skips :
      (new_hubs : List MetaData) (hub : MetaData)
      → has_no_size hub ≡ true
      → add_hub itertools new_hubs hub ≡ new_hubs
  unfolding add_hub
  add_hub_skips new_hubs hub h = rw h refl

  add_hub-Takes :
      (new_hubs : List MetaData) (hub : MetaData)
      → has_no_size hub ≡ false
      → HasItems hub
      → All HasItems new_hubs
      → Takes hub new_hubs (add_hub itertools new_hubs hub)
  unfolding add_hub
  add_hub-Takes new_hubs hub some_size hh h = elim (Bool-cases (is_collection_hub hub)) [
    | inl collection ↦ rw (some_size, collection) (absorb-Takes hub new_hubs hh h)
    | inr native ↦ rw (some_size, native) (pushed hub new_hubs hh h)
  ]

  counted :
      (new_hubs mid : List MetaData) (hub : MetaData) (some_left after : List MetaData)
      → Takes hub new_hubs mid
      → Permᴰ (all_items mid ++ all_items some_left) (all_items after)
      → Permᴰ (all_items new_hubs ++ all_items (hub ∷ some_left)) (all_items after)
  counted new_hubs mid hub some_left after r further =
      Permᴰ.trans
        (Permᴰ-eq (sym (append_assoc (all_items new_hubs) (children hub) (all_items some_left))))
        (Permᴰ.trans (Permᴰ.append_right (all_items some_left) r.0) further)

  add_hubs-Keeps :
      (new_hubs hubs : List MetaData)
      → All HasItems new_hubs
      → All HasItems (with_size hubs)
      → Permᴰ
          (all_items new_hubs ++ all_items (with_size hubs))
          (all_items (add_hubs itertools new_hubs hubs))
  unfolding add_hubs filter
  add_hubs-Keeps new_hubs [] h k = Permᴰ-eq (append_nil (all_items new_hubs))
  add_hubs-Keeps new_hubs (hub ∷ hubs) h k = elim (Bool-cases (has_no_size hub)) [
    | inl none_left ↦
        rw (none_left, add_hub_skips new_hubs hub none_left)
          (add_hubs-Keeps new_hubs hubs h (rw none_left at k))
    | inr some_size ↦
        let both = rw some_size at k in
        let r = add_hub-Takes new_hubs hub some_size both.0 h in
        rw some_size (
          counted new_hubs _ hub (with_size hubs) _ r
            (add_hubs-Keeps (add_hub itertools new_hubs hub) hubs r.1 both.1))
  ]

  items-size :
      (k : Slot) (n : Option ℤ) (c : MediaContainer) → items k (record c { size = n }) ≡ items k c
  items-size in_metadata n c = refl
  items-size in_hub n c = refl
  items-size in_video n c = refl
  items-size in_directory n c = refl

  no_items : (xs : List MetaData) → is_empty xs ≡ true → xs ≡ []
  no_items [] h = refl
  no_items (x ∷ xs) h = absurd (ground arith)

  in_use-set_children_mut :
      (value : List MetaData) (c : MediaContainer)
      → (children_mut c ≡ [] → value ≡ [])
      → items (slot_of c) (set_children_mut value c) ≡ value
  unfolding set_children_mut
  in_use-set_children_mut value c lost = elim (Bool-cases (is_empty (children_mut c))) [
    | inl gone ↦
        let e = no_items (children_mut c) gone in
        rw gone (items-size (slot_of c) _ c ∙ unfold children_mut in e ∙ sym (lost e))
    | inr some_items ↦ rw some_items (items-with_items (slot_of c) value _)
  ]

  -- With interleaving on, and where each row that has a size has items: merging the rows of a
  -- response keeps the items of all the rows that have a size, each as often as it occurs, and adds
  -- none.
  pub Permᴰ-interleave_hubs :
      (config : Config) (c : MediaContainer)
      → config.interleave ≡ true
      → All HasItems (filter (λ hub. not (has_no_size hub)) (children_mut c))
      → Permᴰ
          (all_items (filter (λ hub. not (has_no_size hub)) (children_mut c)))
          (all_items (items (slot_of c) (interleave_hubs itertools config c)))
  unfolding interleave_hubs
  Permᴰ-interleave_hubs config c on h =
      rw
        (
          on,
          in_use-set_children_mut (add_hubs itertools [] (children_mut c)) c
              (λ e. rw e (unfold add_hubs in refl)),
        )
        (add_hubs-Keeps [] (children_mut c) tt h)
