-- ===== src/Transform/Chain.antt =====
-- A chain of transforms over a response with its items in one list: what each of them makes of the
-- items, and that they stay in that list.
use replex.Prelude.{◌≡◌, inl, inr, true, Option, List, [], ◌∷◌, All, is_some, Bool-cases}
use replex.Prelude.Int.{ℤ}
use replex.Metadata.{MetaData}
use replex.Transform.{
  MediaContainer, Slot, in_metadata, in_hub, in_video, in_directory, with_items, Transform,
  each_item, fuel_of, apply_all, resize, apply_to,
}
use replex.Transform.Loop.{kept}
use replex.Transform.Policy.Safety.{bare, everything, each_item-single, All-kept, All-everything}

-- A response with its items, of which all have a property, in one list.
pub data InOneList : (MetaData → Type 0) → MediaContainer → Type 1 where
  one_list :
      {P : MetaData → Type 0} (k : Slot) (n : Option ℤ) (xs : List MetaData)
      → All P xs
      → InOneList P (with_items k xs (bare n))

pub InOneList-everything :
    (P : MetaData → Type 0) (c : MediaContainer) → InOneList P c → All P (everything c)
InOneList-everything P c (one_list k n xs h) = All-everything P k n xs h

pub anew-InOneList :
    (P : MetaData → Type 0) (k : Slot) (n m : Option ℤ) (xs : List MetaData)
    → All P xs
    → InOneList P (record (with_items k xs (bare n)) { size = m })
anew-InOneList P in_metadata n m xs h = one_list in_metadata m xs h
anew-InOneList P in_hub n m xs h = one_list in_hub m xs h
anew-InOneList P in_video n m xs h = one_list in_video m xs h
anew-InOneList P in_directory n m xs h = one_list in_directory m xs h

resize-InOneList :
    (P : MetaData → Type 0) (c : MediaContainer) → InOneList P c → InOneList P (resize c)
unfolding resize
resize-InOneList P c (one_list k n xs h) =
    elim (Bool-cases (is_some (with_items k xs (bare n)).size)) [
      | inl sized ↦ rw sized (anew-InOneList P k n _ xs h)
      | inr unsized ↦ rw unsized (one_list k n xs h)
    ]

module _ (S : Type 0) where
  -- A transform that leaves the response as a whole takes items with `P` to items with `Q`.
  pub record Takes (t : Transform S) (P Q : MetaData → Type 0) : Type 1 where
    pub each :
        (x : MetaData) (s : S) → t.filter_metadata x s ≡ true → P x → Q (t.transform_metadata x s).0
    pub whole : (c : MediaContainer) → InOneList Q c → InOneList Q (t.transform_mediacontainer c)

  each_item-InOneList :
      (t : Transform S) (P Q : MetaData → Type 0) (c : MediaContainer) (s : S)
      → Takes t P Q
      → InOneList P c
      → InOneList Q (each_item S t (fuel_of c) 0 c s).0
  each_item-InOneList t P Q c s takes (one_list k n xs h) =
      rw (each_item-single S t k n xs s)
        (one_list k n (kept S t xs s).0 (All-kept S t P Q takes.each xs s h))

  -- The transforms of a list, each with what it makes of the items.
  pub data Chain : List (Transform S) → (MetaData → Type 0) → (MetaData → Type 0) → Type 1 where
    ends : {P : MetaData → Type 0} → Chain [] P P
    and_next :
        {t : Transform S} {ts : List (Transform S)} {P Q R : MetaData → Type 0}
        → Takes t P Q
        → Chain ts Q R
        → Chain (t ∷ ts) P R

  apply_all-InOneList :
      (ts : List (Transform S)) (P R : MetaData → Type 0) (c : MediaContainer) (s : S)
      → Chain ts P R
      → InOneList P c
      → InOneList R (apply_all S ts c s).0
  unfolding apply_all
  apply_all-InOneList ts P R c s ends h = h
  apply_all-InOneList ts P R c s (and_next {t} {ts = us} {Q} takes chain) h =
      apply_all-InOneList us Q R _ _ chain (takes.whole _ (each_item-InOneList t P Q c s takes h))

  pub apply_to-InOneList :
      (ts : List (Transform S)) (P R : MetaData → Type 0) (c : MediaContainer) (s : S)
      → Chain ts P R
      → InOneList P c
      → InOneList R (apply_to S ts c s).0
  unfolding apply_to
  apply_to-InOneList ts P R c s chain h =
      resize-InOneList R _ (apply_all-InOneList ts P R c s chain h)
