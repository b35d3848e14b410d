-- ===== src/Transform/Policy/Safety.antt =====
-- What an account gets of a response that the policy transforms have gone over.
use replex.Prelude.{
  ◌≡◌, refl, ap, ◌∙◌, inl, inr, ◌++◌, true, false, Option, none, some, List, [], ◌∷◌, All,
  All-append, All-filter, arith, is_empty, is_some, Bool-cases,
}
use replex.Prelude.Int.{ℤ}
use replex.Policy.Entries.{ResolutionPolicy, UserIdentity, is_unrestricted}
use replex.Policy.Classify.{media_allowed}
use replex.Cache.{Cache}
use replex.Parts.{PartMediaClassification}
use replex.Security.{current_policy}
use replex.Metadata.{MetaData}
use replex.Metadata.Forest.{all_media}
use replex.Metadata.Filter.{filter_media_recursive}
use replex.Metadata.Filter.Laws.{all_media-filter_media_recursive, all_media-clear_media_recursive}
use replex.Transform.{
  MediaContainer, Slot, in_metadata, in_hub, in_video, in_directory, with_items, Transform,
  each_item, fuel_of, apply_all, resize, apply_to,
}
use replex.Transform.Loop.{kept}
use replex.Transform.Pass.{order, pass, each_item-pass}
use replex.Transform.Policy.{
  Situation, is_hidden, collection_visibility, restrict_item, resolution_policy,
  apply_policy_transforms,
}

-- A response with no items.
abbrev pub bare : Option ℤ → MediaContainer
bare size = record { size = size; metadata = []; hub = []; video = []; directory = [] }

-- All the items of a response, whichever list they are in.
abbrev pub everything : MediaContainer → List MetaData
everything c = c.metadata ++ (c.hub ++ (c.video ++ c.directory))

module _ (S : Type 0) (t : Transform S) where
  pass-single :
      (k : Slot) (n : Option ℤ) (xs : List MetaData) (s : S)
      → pass S t order (with_items k xs (bare n)) s
        ≡ (with_items k (kept S t xs s).0 (bare n), (kept S t xs s).1)
  unfolding pass kept
  pass-single in_metadata n xs s = elim (Bool-cases (is_empty (kept S t xs s).0)) [
    | inl gone ↦ rw gone refl
    | inr some_stay ↦ rw some_stay refl
  ]
  pass-single in_hub n xs s = elim (Bool-cases (is_empty (kept S t xs s).0)) [
    | inl gone ↦ rw gone refl
    | inr some_stay ↦ rw some_stay refl
  ]
  pass-single in_video n xs s = elim (Bool-cases (is_empty (kept S t xs s).0)) [
    | inl gone ↦ rw gone refl
    | inr some_stay ↦ rw some_stay refl
  ]
  pass-single in_directory n xs s = elim (Bool-cases (is_empty (kept S t xs s).0)) [
    | inl gone ↦ rw gone refl
    | inr some_stay ↦ rw some_stay refl
  ]

  pub each_item-single :
      (k : Slot) (n : Option ℤ) (xs : List MetaData) (s : S)
      → (let c = with_items k xs (bare n) in
          each_item S t (fuel_of c) 0 c s
          ≡ (with_items k (kept S t xs s).0 (bare n), (kept S t xs s).1))
  each_item-single k n xs s =
      let c : MediaContainer = with_items k xs (bare n) in
      ap (λ f. each_item S t f 0 c s) (omega arith)
      ∙ each_item-pass S t 0 c s
      ∙ pass-single k n xs s

  -- What holds of every item that stays holds of all that is kept.
  pub All-kept {ℓ} :
      (P Q : MetaData → Type ℓ)
      → ((x : MetaData) (s : S)
          → t.filter_metadata x s ≡ true
          → P x
          → Q (t.transform_metadata x s).0)
      → (xs : List MetaData) (s : S) → All P xs
      → All Q (kept S t xs s).0
  unfolding kept
  All-kept P Q each [] s h = tt
  All-kept P Q each (x ∷ xs) s h = elim (Bool-cases (t.filter_metadata x s)) [
    | inl stays ↦ rw stays (each x s stays h.0, All-kept P Q each xs _ h.1)
    | inr goes ↦ rw goes (All-kept P Q each xs s h.1)
  ]

pub All-everything {ℓ} :
    (P : MetaData → Type ℓ) (k : Slot) (n : Option ℤ) (xs : List MetaData)
    → All P xs
    → All P (everything (with_items k xs (bare n)))
All-everything P in_metadata n xs h = All-append P xs [] h tt
All-everything P in_hub n xs h = All-append P xs [] h tt
All-everything P in_video n xs h = All-append P xs [] h tt
All-everything P in_directory n xs h = h

everything-resize : (c : MediaContainer) → everything (resize c) ≡ everything c
unfolding resize
everything-resize c = elim (Bool-cases (is_some c.size)) [
  | inl sized ↦ rw sized refl
  | inr unsized ↦ rw unsized refl
]

All-Unit : (xs : List MetaData) → All {0, 0} (λ x. Unit) xs
All-Unit [] = tt
All-Unit (x ∷ xs) = (tt, All-Unit xs)

module _ (S : Type 0) (t u : Transform S)
    (keep_t : (c : MediaContainer) → t.transform_mediacontainer c ≡ c)
    (keep_u : (c : MediaContainer) → u.transform_mediacontainer c ≡ c) where
  -- What holds of every item that passes both transforms holds of all that goes out.
  All-apply_to :
      (P Q : MetaData → Type 0)
      → ((x : MetaData) (s : S) → t.filter_metadata x s ≡ true → P (t.transform_metadata x s).0)
      → ((x : MetaData) (s : S)
          → u.filter_metadata x s ≡ true
          → P x
          → Q (u.transform_metadata x s).0)
      → (k : Slot) (n : Option ℤ) (xs : List MetaData) (s : S)
      → All Q (everything (apply_to S (t ∷ u ∷ []) (with_items k xs (bare n)) s).0)
  unfolding apply_to apply_all
  All-apply_to P Q one two k n xs s =
      let a = kept S t xs s in
      rw
        (
          each_item-single S t k n xs s,
          keep_t (with_items k a.0 (bare n)),
          each_item-single S u k n a.0 a.1,
          keep_u (with_items k (kept S u a.0 a.1).0 (bare n)),
          everything-resize (with_items k (kept S u a.0 a.1).0 (bare n)),
        )
        (All-everything Q k n _ (
          All-kept S u P Q two a.0 a.1
            (All-kept S t (λ x. Unit) P (λ x s stays h. one x s stays) xs s (All-Unit xs))))

-- What an account may see of an item: no version in it, at any depth, that its policy prohibits, and
-- no collection that is hidden from it.
abbrev pub Visible : ResolutionPolicy → MetaData → Type 0
Visible policy x =
    All (λ m. media_allowed m policy ≡ true) (all_media x) × (is_hidden x policy ≡ false)

module _ (cache : Cache ℤ PartMediaClassification) (at : Situation) where
  restrict_item_known :
      (policy : ResolutionPolicy) (who : UserIdentity) (x : MetaData) (s : cache.Store)
      → current_policy at.runtime at.client at.account ≡ some (policy, who)
      → is_unrestricted policy ≡ false
      → (restrict_item cache at x s).0 ≡ filter_media_recursive policy x
  unfolding restrict_item
  restrict_item_known policy who x s known restricted = ground arith

  is_hidden_known :
      (policy : ResolutionPolicy) (who : UserIdentity) (x : MetaData) (s : cache.Store)
      → current_policy at.runtime at.client at.account ≡ some (policy, who)
      → (collection_visibility cache.Store at).filter_metadata x s ≡ true
      → is_hidden x policy ≡ false
  unfolding collection_visibility
  is_hidden_known policy who x s known stays = ground arith

  restrict_item-allowed :
      (policy : ResolutionPolicy) (who : UserIdentity) (x : MetaData) (s : cache.Store)
      → current_policy at.runtime at.client at.account ≡ some (policy, who)
      → is_unrestricted policy ≡ false
      → All (λ m. media_allowed m policy ≡ true) (all_media (restrict_item cache at x s).0)
  restrict_item-allowed policy who x s known restricted =
      rw
        (
          restrict_item_known policy who x s known restricted,
          all_media-filter_media_recursive policy x,
        )
        (All-filter (λ m. media_allowed m policy) (all_media x))

  -- A response with its items in one list, to an account with a policy that restricts resolutions:
  -- what goes out has, in any list and at any depth, no version that the policy prohibits, and among
  -- its items no collection that is hidden from the account.
  pub apply_policy_transforms-Visible :
      (policy : ResolutionPolicy) (who : UserIdentity) (k : Slot) (n : Option ℤ)
      (xs : List MetaData) (s : cache.Store) (r : MediaContainer × cache.Store)
      → current_policy at.runtime at.client at.account ≡ some (policy, who)
      → is_unrestricted policy ≡ false
      → apply_policy_transforms cache at (some (with_items k xs (bare n))) true s ≡ some r
      → All (Visible policy) (everything r.0)
  unfolding apply_policy_transforms
  apply_policy_transforms-Visible policy who k n xs s r known restricted goes_out =
      let e : apply_to cache.Store
            (resolution_policy cache at ∷ collection_visibility cache.Store at ∷ [])
            (with_items k xs (bare n)) s
          ≡ r =
        ground arith in
      rw (← e) (
        All-apply_to cache.Store (resolution_policy cache at) (collection_visibility cache.Store at)
          (λ c. unfold resolution_policy in refl) (λ c. unfold collection_visibility in refl)
          (λ x. All (λ m. media_allowed m policy ≡ true) (all_media x)) (Visible policy)
          (λ x s stays.
            unfold resolution_policy in restrict_item-allowed policy who x s known restricted)
          (λ x s stays allowed.
            unfold collection_visibility in (allowed, is_hidden_known policy who x s known stays))
          k n xs s)

  -- Where the account's policy is not known and the policies fail closed, no version goes out.
  pub apply_policy_transforms_fail_closed :
      (k : Slot) (n : Option ℤ) (xs : List MetaData) (s : cache.Store)
      (r : MediaContainer × cache.Store)
      → current_policy at.runtime at.client at.account ≡ none
      → at.runtime.fail_closed ≡ true
      → apply_policy_transforms cache at (some (with_items k xs (bare n))) true s ≡ some r
      → All (λ x. all_media x ≡ []) (everything r.0)
  unfolding apply_policy_transforms
  apply_policy_transforms_fail_closed k n xs s r unknown closed goes_out =
      let e : apply_to cache.Store
            (resolution_policy cache at ∷ collection_visibility cache.Store at ∷ [])
            (with_items k xs (bare n)) s
          ≡ r =
        ground arith in
      rw (← e) (
        All-apply_to cache.Store (resolution_policy cache at) (collection_visibility cache.Store at)
          (λ c. unfold resolution_policy in refl) (λ c. unfold collection_visibility in refl)
          (λ x. all_media x ≡ []) (λ x. all_media x ≡ [])
          (λ x s stays.
            unfold resolution_policy restrict_item in
            rw (unknown, restrict_item, closed) (all_media-clear_media_recursive x))
          (λ x s stays cleared. unfold collection_visibility in cleared) k n xs s)
