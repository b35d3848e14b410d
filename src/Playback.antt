-- ===== src/Playback.antt =====
-- routes.rs: the other hoops of the playback routes, which select a version or change the request's
-- parameters, and the order in which `route_with_state` runs them.
pub mod Edits
pub mod Fallbacks
pub mod Chain
pub mod Keeps
pub mod Permitted
pub mod Safety
pub mod Uncapped
use replex.Prelude.{
  ℕ, ◌≡◌, Bool, true, false, not, ◌&&◌, ◌||◌, Option, none, some, List, [], ◌∷◌, ◌++◌, is_some,
  map_or, unwrap_or, or_else, and_then, get_elem?, head, length, leb, filter, if◌then◌else◌,
}
use replex.Prelude.Int.{ℤ, pos, leb_ℤ}
use replex.Prelude.Text.{
  Text, codes, text_eq, is_text, split, contains, to_lowercase, eq_ignore_ascii_case,
}
use replex.Prelude.Text.Decimal.{show, show_i64, parse_usize, parse_i64}
use replex.Media.{Media}
use replex.Policy.Entries.{ResolutionPolicy}
use replex.Security.{SecurityContextState, resolved, unavailable}
use replex.Queries.{Queries, put, replace_query}
use replex.Transform.{MediaContainer}
use replex.Selection.{
  requested_media_index, best_fit_index, fallback_indexes, decision_is_transcoding,
}
use replex.Enforce.{
  PlaybackRequest, ItemLookup, item_error, item, key_path, key_index, key_max_bitrate, key_bitrate,
}
use replex.Playback.Edits.{Edit, set, drop_key, edited}

-- The answer to the request that `direct_stream_fallback` tries: Plex's decision code, if it has
-- one, a refusal with 400, or anything else.
pub data Trial : Type 0 where
  decided : Option ℤ → Trial
  bad_request : Trial
  unusable : Trial

-- What the hoops read of the configuration and the request, besides what the policy's hoop reads.
-- `decide` is the answer of Plex to the request with the given parameters, if it answers and the
-- answer parses, `buffer_size` reads a text
-- as `f32` and truncates it to an `i64`, and `try_request` is what the request leads to as it is.
pub record Settings (q : Queries) : Type 0 where
  pub skip_optional_transforms : Bool
  pub resolution_policy_enabled : Bool
  pub auto_select_version : Bool
  pub force_maximum_quality : Bool
  pub disable_transcode : Bool
  pub force_direct_play_for : Option (List Text)
  pub video_transcode_fallback_for : Option (List Text)
  pub decide : q.Map → Option MediaContainer
  pub buffer_size : Text → Option ℤ
  pub try_request : q.Map → Trial

-- A hoop that fails leaves the parameters as they are.
pub data Outcome (q : Queries) : Type 0 where
  went_on : q.Map → Outcome q
  failed_hoop : Outcome q

abbrev pub key_direct_play : Text
key_direct_play = codes "directPlay"

abbrev pub key_direct_stream : Text
key_direct_stream = codes "directStream"

abbrev pub key_subtitles : Text
key_subtitles = codes "subtitles"

abbrev pub key_buffer : Text
key_buffer = codes "mediaBufferSize"

abbrev pub key_profile : Text
key_profile = codes "X-Plex-Client-Profile-Extra"

-- `join` with a plus sign.
join_plus : List Text → Text
join_plus [] = []
join_plus (p ∷ []) = p
join_plus (p ∷ r ∷ ps) = p ++ b'+' ∷ join_plus (r ∷ ps)

-- The limitations that a client's profile sets on the bitrate go.
unfoldable pub filtered_extra : Text → Text
unfolding join_plus
filtered_extra extra = join_plus (
    filter
      (λ s.
        not (contains (codes "add-limitation") s)
        && not (contains (codes "name=video.bitrate") (to_lowercase s)))
      (split b'+' extra))

module _ (q : Queries) (opts : Settings q) (req : PlaybackRequest) where
  open q use {Map, get}

  -- The bitrate that is asked for, as the two hoops that pick a version read it.
  unfoldable pub asked_bitrate : Map → Option ℤ
  asked_bitrate m = and_then (or_else (get m key_bitrate) (get m key_max_bitrate)) parse_i64

  -- The version `index` is asked for, and played directly where no bitrate is asked for.
  unfoldable pub auto_selected : Map → ℕ → Map
  unfolding asked_bitrate
  auto_selected m index =
      let direct = if is_some (asked_bitrate m) then [] else set key_direct_play (codes "1") ∷ [] in
      edited q (edited q (edited q m (set key_index (show index) ∷ [])) direct)
        (set key_subtitles (codes "auto") ∷ [])

  unfoldable pub auto_select_for : Map → ℤ × ℤ → ItemLookup → Map
  unfolding auto_selected
  auto_select_for m screen item_error = m
  auto_select_for m screen (item none) = m
  auto_select_for m screen (item (some media)) =
      if leb (length media) 1
      then m
      else replace_query q req.uri_parses (map_or (best_fit_index media screen) m (auto_selected m))
          m

  unfoldable pub auto_select_version : Map → Map
  unfolding auto_select_for
  auto_select_version m =
      let selected : Map = elim req.screen [
        | none ↦ m
        | some screen ↦ elim (get m key_path) [
          | none ↦ replace_query q req.uri_parses m m
          | some path ↦ auto_select_for m screen (req.get_item path)
        ]
      ] in
      if opts.skip_optional_transforms || (not req.has_context || not req.has_client)
      then m
      else if map_or (get m key_index) false (λ index. not (text_eq index (codes "-1")))
      then m
      else selected

  -- The parameters of `force_maximum_quality`, up to the buffer size.
  unfoldable pub at_full_quality : Map → Map
  at_full_quality m = edited q m (
      drop_key key_max_bitrate
      ∷ drop_key key_bitrate
      ∷ set (codes "autoAdjustQuality") (codes "0")
      ∷ set key_direct_stream (codes "1")
      ∷ set key_direct_play (codes "1")
      ∷ set (codes "videoQuality") (codes "100")
      ∷ [])

  -- A text that does not read as a number stays.
  unfoldable pub with_buffer_size : Map → Map
  with_buffer_size m = elim (get m key_buffer) [
    | none ↦ m
    | some raw ↦ edited q m (set key_buffer (map_or (opts.buffer_size raw) raw show_i64) ∷ [])
  ]

  unfoldable pub with_profile : Map → Map
  unfolding filtered_extra
  with_profile m = elim (get m key_profile) [
    | none ↦ m
    | some extra ↦ edited q m (set key_profile (filtered_extra extra) ∷ [])
  ]

  -- The loop over the resolutions that are always played directly.
  unfoldable pub forced_direct : List Text → Option Text → Map → Map
  forced_direct [] resolution m = m
  forced_direct (reso ∷ resos) resolution m =
      let rest = forced_direct resos resolution in
      let forced =
        edited q m (set key_direct_play (codes "1") ∷ drop_key (codes "videoResolution") ∷ []) in
      if map_or resolution false (λ r. text_eq (to_lowercase r) (to_lowercase reso))
      then rest forced
      else rest m

  -- `none` where the hoop gives up and leaves the request as it was.
  unfoldable pub direct_play_item : List Text → ℕ → ItemLookup → Map → Option Map
  unfolding forced_direct
  direct_play_item resos index item_error m = none
  direct_play_item resos index (item none) m = none
  direct_play_item resos index (item (some media)) m =
      map_or (get_elem? media index) none (λ x. some (forced_direct resos x.video_resolution m))

  abbrev pub media_index : Option Text → ℕ
  media_index v =
      unwrap_or (and_then v (λ t. if text_eq t (codes "-1") then none else parse_usize t)) 0

  unfoldable pub direct_play : Option (List Text) → Option Text → ℕ → Map → Option Map
  unfolding direct_play_item
  direct_play none path index m = some m
  direct_play (some resos) none index m = some m
  direct_play (some resos) (some path) index m = direct_play_item resos index (req.get_item path) m

  unfoldable pub force_maximum_quality : Map → Outcome q
  unfolding at_full_quality with_buffer_size with_profile direct_play
  force_maximum_quality m =
      let changed = with_profile (with_buffer_size (at_full_quality m)) in
      let index = media_index (get m key_index) in
      let played = direct_play opts.force_direct_play_for (get changed key_path) index changed in
      if opts.skip_optional_transforms
      then went_on m
      else if not (req.has_context && (req.has_client && req.has_state))
      then failed_hoop
      else if not (is_some (get m key_max_bitrate)) && not (is_some (get m key_bitrate))
      then went_on m
      else went_on (map_or played m (λ new. replace_query q req.uri_parses new m))
