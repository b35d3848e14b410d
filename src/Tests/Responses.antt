-- ===== src/Tests/Responses.antt =====
-- What an account gets of a response.
use replex.Prelude.{◌+◌, ◌≡◌, refl, none, some, [], ◌∷◌, All, filter, find}
use replex.Prelude.Int.{pos}
use replex.Prelude.Text.{codes, text_eq, is_text}
use replex.Policy.Entries.{ResolutionPolicy, matched_entry, resolve_policy}
use replex.Policy.Classify.{media_allowed}
use replex.Security.{found, failed, client_of, current_policy, policy_of}
use replex.Metadata.{MetaData, node, nil, cons}
use replex.Metadata.Forest.{all_media, descendants}
use replex.Metadata.Filter.{filter_media_recursive}
use replex.Metadata.Filter.Laws.{
  IsWorth, all_media-filter_media_recursive, descendants-filter_media_recursive,
}
use replex.Transform.{MediaContainer, in_metadata, with_items, each_item, fuel_of, apply_to}
use replex.Transform.Pass.{order, pass, each_item-pass}
use replex.Transform.Policy.{
  Situation, resolution_policy, collection_visibility, apply_policy_transforms,
}
use replex.Transform.Policy.Safety.{
  bare, everything, Visible, apply_policy_transforms-Visible, apply_policy_transforms_fail_closed,
}
use replex.Tests.Data.{ann, runtime, ann_resolved, movie, collection, item_fields, part_cache}

abbrev pub known : Situation
known = record { runtime = runtime; client = client_of none; account = found ann_resolved }

abbrev unknown : Situation
unknown = record { runtime = runtime; client = client_of none; account = failed (codes "timeout") }

abbrev pub ann_policy : ResolutionPolicy
ann_policy = policy_of runtime ann

abbrev pub response : MediaContainer
response = with_items in_metadata (movie ∷ collection ∷ []) (bare (some (pos 2)))

abbrev pub sent : Situation → MediaContainer × part_cache.Store
sent at =
    apply_to part_cache.Store
      (resolution_policy part_cache at ∷ collection_visibility part_cache.Store at ∷ []) response
      part_cache.empty

apply_policy_transforms-Visible_example : All (Visible ann_policy) (everything (sent known).0)
apply_policy_transforms-Visible_example =
    apply_policy_transforms-Visible part_cache known ann_policy ann in_metadata (some (pos 2))
      (movie ∷ collection ∷ []) part_cache.empty (sent known) (unfold current_policy in refl)
      (unfold resolve_policy matched_entry find text_eq is_text in refl)
      (unfold apply_policy_transforms in refl)

apply_policy_transforms_fail_closed_example :
    All (λ x. all_media x ≡ []) (everything (sent unknown).0)
apply_policy_transforms_fail_closed_example =
    apply_policy_transforms_fail_closed part_cache unknown in_metadata (some (pos 2))
      (movie ∷ collection ∷ []) part_cache.empty (sent unknown) (unfold current_policy in refl) refl
      (unfold apply_policy_transforms in refl)

each_item-pass_example :
    each_item part_cache.Store
      (resolution_policy part_cache known)
      (fuel_of response + 3)
      0
      response
      part_cache.empty
    ≡ pass part_cache.Store (resolution_policy part_cache known) order response part_cache.empty
each_item-pass_example =
    each_item-pass part_cache.Store (resolution_policy part_cache known) 3 response part_cache.empty

abbrev season : MetaData
season = node (item_fields (codes "S") (codes "season") []) (cons movie nil) nil nil

all_media-filter_media_recursive_example :
    all_media (filter_media_recursive ann_policy season)
    ≡ filter (λ m. media_allowed m ann_policy) (all_media season)
all_media-filter_media_recursive_example = all_media-filter_media_recursive ann_policy season

descendants-filter_media_recursive_example :
    All (IsWorth ann_policy) (descendants (filter_media_recursive ann_policy season))
descendants-filter_media_recursive_example = descendants-filter_media_recursive ann_policy season

-- A movie that stays, and one in another list.
abbrev two_lists : MediaContainer
two_lists = record response { video = movie ∷ [] }
