-- ===== src/Tests/Accounts.antt =====
-- Policies and identities.
use replex.Prelude.{
  ◌≡◌, inr, All, filter, refl, ◌++◌, ◌&&◌, true, false, Option, none, some, [], ◌∷◌, Memᴰ, arith,
  filter,
}
use replex.Prelude.Int.{pos, mul_i64, wrap_i64, ◌*ℤ◌, neg_i64, ◌-ℤ◌}
use replex.Prelude.Text.{Text, codes, text_eq, starts_with, trim, to_lowercase}
use replex.Config.{Config}
use replex.Policy.Limit.{p480, p1080, parse}
use replex.Policy.Entries.{ResolutionPolicy, resolve_policy}
use replex.Policy.Entries.Resolve.{Governs, Applies, resolve_policy-Applies}
use replex.Policy.Classify.{classify, classify_dimensions, class_of_dimensions, media_allowed}
use replex.Policy.Classify.Bounds.{Fits, media_allowed-Fits}
use replex.Policy.Select.Nearest.{IsFramed, suits_better, best_allowed_media-SuitsBest}
use replex.Policy.Select.{best_allowed_media, allowed_media, key, density}
use replex.Prelude.Minimum.{IsFirstMin, min_by, min_from}
use replex.Policy.Deserialize.{RawPolicyEntry}
use replex.Security.{requires_security_context, found, failed, client_of, current_policy}
use replex.Security.Middleware.{handle, security_of, current_policy-handle}
use replex.Parts.{
  facts, bitrate_allowed, part_classification_allowed, part_classification_allowed-eq,
  cache_part_classification, cache_part_classification-IsSound, IsSound,
}
use replex.Tests.Data.{uhd, fhd, versions, ann, ann_entry, runtime, ann_resolved, part_cache}

abbrev up_to_1080 : ResolutionPolicy
up_to_1080 = record { limit = p1080; max_bitrate = some (pos 10000); hidden_collections = [] }

abbrev up_to_480 : ResolutionPolicy
up_to_480 = record { limit = p480; max_bitrate = none; hidden_collections = [] }

-- What the tests compute with.
abbrev fhd_allowed : media_allowed fhd up_to_1080 ≡ true
unfolding media_allowed classify classify_dimensions class_of_dimensions parse trim to_lowercase
    text_eq
fhd_allowed = refl

media_allowed-Fits_example : Fits p1080 1920 1080
unfolding fhd_allowed
media_allowed-Fits_example =
    media_allowed-Fits fhd up_to_1080 1920 1080
      (record { width = refl; height = refl; wide = omega arith; tall = omega arith })
      (omega arith, omega arith) (λ e. ground arith) fhd_allowed

resolve_policy-Applies_example :
    (entry : Option _) × Governs (ann_entry ∷ []) ann entry
    × Applies entry p480
        (codes "Kids" ∷ [])
        (resolve_policy (ann_entry ∷ []) p480 (codes "Kids" ∷ []) ann)
resolve_policy-Applies_example =
    resolve_policy-Applies (ann_entry ∷ []) p480 (codes "Kids" ∷ []) ann

best_allowed_media-SuitsBest_example :
    Memᴰ fhd versions
    × (media_allowed fhd up_to_1080 ≡ true)
    × IsFirstMin (suits_better none) (filter (λ m. media_allowed m up_to_1080) versions) fhd
best_allowed_media-SuitsBest_example =
    best_allowed_media-SuitsBest versions up_to_1080 none fhd framed tt (
      unfold best_allowed_media allowed_media filter min_by min_from key density mul_i64 wrap_i64
        ◌*ℤ◌ neg_i64 ◌-ℤ◌ media_allowed classify classify_dimensions class_of_dimensions parse trim
        to_lowercase text_eq in
      refl)
  where
    framed : All IsFramed versions
    framed = (
      (inr (_, refl, omega arith), inr (_, refl, omega arith)),
      ((inr (_, refl, omega arith), inr (_, refl, omega arith)), tt),
    )

abbrev raw_entry : Text → RawPolicyEntry
raw_entry limit = record {
  username = some (codes "ann");
  uuid = none;
  max_resolution = limit;
  max_bitrate = none;
  visible_collections = [];
}

abbrev pub settings : Config
settings = record {
  host = none;
  token = none;
  interleave = true;
  hub_restrictions = true;
  hero_rows = some (codes "continue" ∷ []);
  warm_interval = 300;
  redirect_streams_host = none;
  allowed_upstream_hosts = none;
  identity_api_base = none;
  port = none;
  ssl_enable = false;
  ssl_domain = none;
  exclude_watched = false;
  hub_stale_ttl = 60;
  warm_tokens = none;
  disable_user_state = false;
  disable_leaf_count = false;
  redirect_streams = false;
  video_transcode_fallback_for = none;
  resolution_policy_enabled = true;
  user_resolution_policies = ann_entry ∷ [];
  resolution_default = p480;
  resolution_policy_fail_closed = true;
  allow_username_fallback = false;
  token_identity_map = [];
  client_identity_map = [];
  hidden_collections = none;
}

current_policy-handle_example :
    current_policy runtime
      (client_of (some (security_of runtime (codes "t") (found ann_resolved))))
      (failed (codes "later"))
    ≡ current_policy runtime (client_of none) (found ann_resolved)
current_policy-handle_example =
    current_policy-handle runtime (codes "t") (codes "/library/sections") (found ann_resolved)
      (failed (codes "later")) none (some (security_of runtime (codes "t") (found ann_resolved)))
      refl (unfold requires_security_context starts_with in refl)
      (unfold handle requires_security_context starts_with in refl)

part_classification_allowed-eq_example :
    part_classification_allowed (facts uhd) up_to_1080
    ≡ (media_allowed uhd up_to_1080 && bitrate_allowed (some (pos 20000)) (some (pos 10000)))
part_classification_allowed-eq_example = part_classification_allowed-eq uhd up_to_1080

cache_part_classification-IsSound_example :
    IsSound part_cache
      ([] ++ versions)
      (cache_part_classification part_cache part_cache.empty versions)
cache_part_classification-IsSound_example =
    cache_part_classification-IsSound part_cache [] versions part_cache.empty
      (λ id c e. absurd (ground (arith, part_cache.lookup-empty id)))
