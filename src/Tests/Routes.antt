-- ===== src/Tests/Routes.antt =====
-- The playback routes as a whole.
use replex.Prelude.{◌≡◌, refl, true, false, none, some, [], ◌∷◌, arith}
use replex.Prelude.Int.{pos}
use replex.Prelude.Text.{codes, text_eq}
use replex.Enforce.{requested_bitrate, cap_bitrate}
use replex.Queries.Assoc.{pairs, get_first}
use replex.Playback.{Settings, unusable, went_on, force_maximum_quality}
use replex.Playback.Chain.{start_route, decision_route}
use replex.Playback.Safety.{IsSettled, decision_route-IsSettled}
use replex.Playback.Uncapped.{force_maximum_quality_uncaps}
use replex.Tests.Data.{versions, part_cache}
use replex.Tests.Playback.{known_account, playback, before, versions-DistinctIds}

-- Everything is on, and Plex answers nothing.
abbrev settings : Settings pairs
unfolding pairs
settings = record {
  skip_optional_transforms = false;
  resolution_policy_enabled = true;
  auto_select_version = true;
  force_maximum_quality = true;
  disable_transcode = false;
  force_direct_play_for = none;
  video_transcode_fallback_for = some (codes "4K" ∷ []);
  decide = λ m. none;
  buffer_size = λ t. none;
  try_request = λ m. unusable;
}

decision_route-IsSettled_example :
    IsSettled pairs part_cache settings playback known_account versions
      (codes "/library/metadata/5")
      (start_route pairs part_cache settings playback before)
    × IsSettled pairs part_cache settings playback known_account versions
        (codes "/library/metadata/5")
        (decision_route pairs part_cache settings playback before)
unfolding settings
decision_route-IsSettled_example =
    decision_route-IsSettled pairs part_cache settings playback known_account versions
      (codes "/library/metadata/5") before refl refl refl refl refl refl refl refl
      (unfold pairs get_first text_eq in refl) refl refl refl versions-DistinctIds (omega arith)

force_maximum_quality_uncaps_example :
    (new : pairs.Map) × (force_maximum_quality pairs settings playback
        (cap_bitrate pairs part_cache playback (pos 4000) before.queries)
      ≡ went_on new)
    × (requested_bitrate pairs part_cache new ≡ none)
unfolding settings
force_maximum_quality_uncaps_example =
    force_maximum_quality_uncaps pairs settings playback part_cache (pos 4000) before.queries refl
      refl refl refl (omega arith) (omega arith)
