-- ===== src/Playback/Fallbacks.antt =====
-- routes.rs: the hoops that fall back: to another version where Plex would transcode
-- (`video_transcode_fallback`), and to a direct stream (`direct_stream_fallback`).
use replex.Prelude.{
  ℕ, Bool, false, not, ◌&&◌, ◌||◌, Option, none, some, List, [], ◌∷◌, is_some, map_or, unwrap_or,
  and_then, get_elem?, head, length, leb, if◌then◌else◌,
}
use replex.Prelude.Int.{pos, leb_ℤ}
use replex.Prelude.Text.{Text, codes, text_eq, to_lowercase, eq_ignore_ascii_case}
use replex.Prelude.Text.Decimal.{show}
use replex.Media.{Media}
use replex.Policy.Entries.{ResolutionPolicy}
use replex.Security.{SecurityContextState, resolved, unavailable}
use replex.Queries.{Queries, replace_query}
use replex.Selection.{requested_media_index, fallback_indexes, decision_is_transcoding}
use replex.Enforce.{PlaybackRequest, ItemLookup, item_error, item, key_path, key_index}
use replex.Playback.Edits.{set, edited}
use replex.Playback.{
  Trial, decided, bad_request, unusable, Settings, Outcome, went_on, failed_hoop, key_direct_play,
  key_direct_stream, key_subtitles, asked_bitrate,
}

module _ (q : Queries) (opts : Settings q) (req : PlaybackRequest) where
  open q use {Map, get}

  -- `get_transcoding_for_request`
  unfoldable pub is_transcoding : Map → Option Bool
  is_transcoding m = and_then (opts.decide m) (λ decision.
      let empty_size = map_or decision.size false (λ n. leb_ℤ n (pos 0) && leb_ℤ (pos 0) n) in
      some (if empty_size then false else decision_is_transcoding decision))

  abbrev pub fails_closed : Option SecurityContextState → Bool
  fails_closed none = false
  fails_closed (some (resolved security)) = false
  fails_closed (some (unavailable fail_closed reason)) = fail_closed

  abbrev pub known_policy : Option SecurityContextState → Option ResolutionPolicy
  known_policy none = none
  known_policy (some (resolved security)) = some security.policy
  known_policy (some (unavailable fail_closed reason)) = none

  unfoldable pub fallback_selected : Map → ℕ → Map
  unfolding asked_bitrate
  fallback_selected m index =
      let direct =
        if is_some (asked_bitrate q opts req m) then [] else set key_direct_play (codes "1") ∷ [] in
      edited q
        (edited q (edited q m (set key_index (show index) ∷ set key_direct_stream (codes "1") ∷ []))
          direct)
        (set key_subtitles (codes "auto") ∷ [])

  -- The request, for an item with the versions `media` of which `selected` is asked for.
  unfoldable pub fall_back : Map → List Media → ℕ → Text → Map
  unfolding fallback_selected
  fall_back m media selected fallback_for =
      let candidates =
        if opts.resolution_policy_enabled && fails_closed req.security
        then []
        else fallback_indexes media selected fallback_for (known_policy req.security) in
      replace_query q req.uri_parses (map_or (head candidates) m (fallback_selected m)) m

  unfoldable pub fallback_for_item : Map → List Media → ℕ → Text → Outcome q
  unfolding fall_back is_transcoding
  fallback_for_item m media selected fallback_for =
      let marked =
        map_or (and_then (get_elem? media selected) (λ x. x.video_resolution)) false
          (λ r. eq_ignore_ascii_case r fallback_for) in
      if not marked || leb (length media) 1
      then went_on m
      else map_or (is_transcoding m) failed_hoop (λ transcodes.
        if transcodes then went_on (fall_back m media selected fallback_for) else went_on m)

  unfoldable pub fallback_for_path : Map → ℕ → Text → ItemLookup → Outcome q
  unfolding fallback_for_item
  fallback_for_path m selected value item_error = went_on m
  fallback_for_path m selected value (item none) = went_on m
  fallback_for_path m selected value (item (some media)) =
      fallback_for_item m media selected (to_lowercase value)

  unfoldable pub fallback_for_request : Map → Option ℕ → Option Text → Option Text → Outcome q
  unfolding fallback_for_path
  fallback_for_request m none value path = went_on m
  fallback_for_request m (some selected) none path = went_on m
  fallback_for_request m (some selected) (some value) none = went_on m
  fallback_for_request m (some selected) (some value) (some path) =
      fallback_for_path m selected value (req.get_item path)

  unfoldable pub video_transcode_fallback : Map → Outcome q
  unfolding fallback_for_request
  video_transcode_fallback m =
      if opts.skip_optional_transforms
      then went_on m
      else if not (req.has_context && (req.has_client && req.has_state))
      then failed_hoop
      else fallback_for_request m (requested_media_index (get m key_index))
          (and_then opts.video_transcode_fallback_for head) (get m key_path)

  -- `add_query_param_salvo`, twice.
  unfoldable pub with_direct_stream : Map → Map
  with_direct_stream m =
      if req.uri_parses
      then edited q m (set key_direct_play (codes "0") ∷ set key_direct_stream (codes "1") ∷ [])
      else m

  unfoldable pub after_trial : Map → Trial → Outcome q
  unfolding with_direct_stream
  after_trial m (decided code) =
      if map_or code false (λ c. leb_ℤ c (pos 2000) && leb_ℤ (pos 2000) c)
      then went_on (with_direct_stream m)
      else went_on m
  after_trial m bad_request = went_on (with_direct_stream m)
  after_trial m unusable = failed_hoop

  unfoldable pub direct_stream_fallback : Map → Outcome q
  unfolding after_trial
  direct_stream_fallback m =
      if opts.skip_optional_transforms
      then went_on m
      else if not (req.has_context && (req.has_client && req.has_state))
      then failed_hoop
      else if not (text_eq (unwrap_or (get m key_direct_play) (codes "1")) (codes "1"))
      then went_on m
      else after_trial m (opts.try_request m)
