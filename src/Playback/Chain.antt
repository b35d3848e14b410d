-- ===== src/Playback/Chain.antt =====
-- The order of the hoops on the playback routes, as `route_with_state` registers them.
use replex.Prelude.{Bool, true, ◌||◌, none, some, is_some, if◌then◌else◌}
use replex.Prelude.Int.{ℤ}
use replex.Cache.{Cache}
use replex.Parts.{PartMediaClassification}
use replex.Queries.{Queries}
use replex.Enforce.{PlaybackRequest, Playback, enforce_resolution_policy}
use replex.Playback.{
  Settings, Outcome, went_on, failed_hoop, auto_select_version, force_maximum_quality,
}
use replex.Playback.Fallbacks.{video_transcode_fallback, direct_stream_fallback}

module _ (q : Queries) (cache : Cache ℤ PartMediaClassification) (opts : Settings q)
    (req : PlaybackRequest) where
  abbrev pub with_outcome : Playback q cache → Outcome q → Playback q cache
  with_outcome s (went_on m) = record s { queries = m }
  with_outcome s failed_hoop = s

  -- A hoop that is registered, on a request that no earlier one has refused.
  abbrev pub hoop : Bool → (q.Map → Outcome q) → Playback q cache → Playback q cache
  hoop registered f s =
      if registered then (if is_some s.refused then s else with_outcome s (f s.queries)) else s

  abbrev pub enforced : Playback q cache → Playback q cache
  enforced s =
      if opts.resolution_policy_enabled
      then (elim (enforce_resolution_policy q cache req s) [ some r ↦ r | none ↦ s ])
      else s

  -- The routes of `start` and `subtitles`.
  unfoldable pub start_route : Playback q cache → Playback q cache
  start_route s =
      hoop (opts.force_maximum_quality || opts.disable_transcode) (force_maximum_quality q opts req)
        (hoop opts.auto_select_version (λ m. went_on (auto_select_version q opts req m))
          (enforced s))

  -- The route of `decision` goes on with the two fallbacks.
  unfoldable pub decision_route : Playback q cache → Playback q cache
  unfolding start_route
  decision_route s = hoop true (direct_stream_fallback q opts req) (
      hoop (is_some opts.video_transcode_fallback_for) (video_transcode_fallback q opts req)
        (start_route s))
