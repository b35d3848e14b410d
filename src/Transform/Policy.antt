-- ===== src/Transform/Policy.antt =====
-- transform/resolution_policy.rs: the two transforms that apply an account's policy to a response,
-- and routes.rs `apply_policy_transforms`, which runs both.
pub mod Safety
use replex.Prelude.{
  ◌&&◌, ◌||◌, Bool, true, false, not, Option, none, some, List, [], ◌∷◌, any, is_empty,
  if◌then◌else◌,
}
use replex.Prelude.Int.{ℤ}
use replex.Prelude.Text.{Text, codes, text_eq, trim}
use replex.Policy.Entries.{ResolutionPolicy, is_unrestricted}
use replex.Policy.Classify.{media_allowed}
use replex.Policy.Snapshot.{PolicySnapshot}
use replex.Cache.{Cache}
use replex.Parts.{PartMediaClassification, cache_part_classification}
use replex.Security.{Client, Lookup, current_policy}
use replex.Metadata.{MetaData, item_of, is_collection_hub}
use replex.Metadata.Filter.{filter_media_recursive, clear_media_recursive}
use replex.Transform.{MediaContainer, Transform, apply_to}

-- What the transforms of one response find: the policies, the client built for the request, and
-- what a lookup of the account returns.
pub record Situation : Type 0 where
  pub runtime : PolicySnapshot
  pub client : Client
  pub account : Lookup

-- `CollectionVisibilityTransform::is_hidden`
unfoldable pub is_hidden : MetaData → ResolutionPolicy → Bool
unfolding is_collection_hub text_eq
is_hidden x policy =
    let is_collection = is_collection_hub x || text_eq (item_of x).kind (codes "collection") in
    not (is_empty policy.hidden_collections)
    && is_collection
    && any (λ h. text_eq h (trim (item_of x).title)) policy.hidden_collections

unfoldable pub keeps_item : Situation → MetaData → Bool
unfolding current_policy media_allowed
keeps_item at x = elim (current_policy at.runtime at.client at.account) [
  | none ↦ not (at.runtime.fail_closed && not (is_empty (item_of x).media))
  | some p ↦
      is_unrestricted p.0
      || is_empty (item_of x).media
      || any (λ m. media_allowed m p.0) (item_of x).media
]

unfoldable pub collection_visibility : (S : Type 0) → Situation → Transform S
unfolding current_policy is_hidden
collection_visibility S at = record {
  filter_metadata = λ x s. elim (current_policy at.runtime at.client at.account) [
    | some p ↦ not (is_hidden x p.0)
    | none ↦ true
  ];
  transform_metadata = λ x s. (x, s);
  transform_mediacontainer = λ c. c;
}

module _ (cache : Cache ℤ PartMediaClassification) where
  unfoldable pub restrict_item : Situation → MetaData → cache.Store → MetaData × cache.Store
  unfolding current_policy filter_media_recursive clear_media_recursive
  restrict_item at x s = elim (current_policy at.runtime at.client at.account) [
    | none ↦ (if at.runtime.fail_closed then clear_media_recursive x else x, s)
    | some p ↦
        let seen = cache_part_classification cache s (item_of x).media in
        if is_unrestricted p.0 then (x, seen) else (filter_media_recursive p.0 x, seen)
  ]

  unfoldable pub resolution_policy : Situation → Transform cache.Store
  unfolding keeps_item restrict_item
  resolution_policy at = record {
    filter_metadata = λ x s. keeps_item at x;
    transform_metadata = restrict_item at;
    transform_mediacontainer = λ c. c;
  }

  -- `parsed` is the response, if it parses; `has_client` says whether the depot has the context and
  -- a client can be built. `none` is an error: nothing of the response goes out.
  unfoldable pub apply_policy_transforms :
      Situation → Option MediaContainer → Bool → cache.Store → Option (MediaContainer × cache.Store)
  unfolding apply_to resolution_policy collection_visibility
  apply_policy_transforms at none has_client s = none
  apply_policy_transforms at (some c) false s = none
  apply_policy_transforms at (some c) true s =
      some (
        apply_to cache.Store (resolution_policy at ∷ collection_visibility cache.Store at ∷ []) c s)
