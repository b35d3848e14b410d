-- ===== src/Playback/Permitted.antt =====
-- The version that is asked for stays a permitted one, or the fallback picks a permitted one.
use replex.Prelude.{
  ◌||◌, ℕ, ◌<◌, ◌^◌, ◌≡◌, refl, ◌∙◌, inl, inr, Bool, true, false, not, ◌&&◌, ◌||◌, Option, none,
  some, List, [], ◌∷◌, All, arith, is_some, map_or, and_then, get_elem?, head, length,
  if◌then◌else◌, Bool-cases, Option-cases, lt_of_get_elem?,
}
use replex.Prelude.Int.{ℤ}
use replex.Prelude.Text.{Text, codes, text_eq, to_lowercase}
use replex.Prelude.Text.Decimal.{show}
use replex.Media.{Media}
use replex.Policy.Entries.{ResolutionPolicy}
use replex.Policy.Classify.{media_allowed}
use replex.Security.{RequestSecurityContext, resolved}
use replex.Cache.{Cache}
use replex.Parts.{PartMediaClassification}
use replex.Queries.{Queries, put, replace_query, get-replace_query, get-put_self, get-put_ne}
use replex.Selection.{requested_media_index, fallback_indexes}
use replex.Selection.Fallback.{IsCandidate, fallback_indexes-All}
use replex.Enforce.{PlaybackRequest, item, key_path, key_index, requested_index}
use replex.Enforce.Pinning.{requested_index_shown}
use replex.Playback.Edits.{Edit, set, edited, spares, get-edited}
use replex.Playback.{asked_bitrate, Settings, auto_select_version}
use replex.Playback.Fallbacks.{
  is_transcoding, fallback_for_request, fallback_for_path, fallback_selected, fall_back,
  fallback_for_item, video_transcode_fallback,
}
use replex.Playback.Keeps.{
  SameVersion, OutcomeHas, goes_on, stays, OutcomeHas-if, OutcomeHas-map_or,
}

module _ (q : Queries) where
  open q use {Map, get}

  module _ (opts : Settings q) (req : PlaybackRequest) where
    -- A version of the item `media` is asked for, by its index, and the policy permits it.
    abbrev pub AsksAllowed :
        Cache ℤ PartMediaClassification → ResolutionPolicy → List Media → Text → Map → Type 0
    AsksAllowed cache policy media path m =
        (get m key_path ≡ some path)
        × ((i : ℕ) × (x : Media) × (requested_index q cache m ≡ some i)
            × (get_elem? media i ≡ some x)
            × (media_allowed x policy ≡ true))

    pub AsksAllowed-SameVersion :
        (cache : Cache ℤ PartMediaClassification) (policy : ResolutionPolicy) (media : List Media)
        (path : Text) (m new : Map)
        → SameVersion q m new
        → AsksAllowed cache policy media path m
        → AsksAllowed cache policy media path new
    AsksAllowed-SameVersion cache policy media path m new same h = (
      same.1 ∙ h.0,
      (
        h.1.0,
        h.1.1,
        unfold requested_index in rw same.0 (unfold requested_index in h.1.2),
        h.1.3,
        h.1.4,
      ),
    )

    pub auto_select_version-same :
        (cache : Cache ℤ PartMediaClassification) (m : Map) (i : ℕ)
        → requested_index q cache m ≡ some i
        → auto_select_version q opts req m ≡ m
    unfolding auto_select_version requested_index
    auto_select_version-same cache m i asked =
        elim (Bool-cases
          (opts.skip_optional_transforms || (not req.has_context || not req.has_client))) [
            | inl skips ↦ rw skips
            | inr runs ↦ elim (Option-cases (get m key_index)) [
              | inl absent ↦ absurd (ground (arith, absent))
              | inr (v, there) ↦ elim (Bool-cases (text_eq v (codes "-1"))) [
                | inl minus ↦ absurd (ground (arith, there, minus))
                | inr index ↦ rw (runs, there, index)
              ]
            ]
          ]

    -- The changes behind the two that name the version.
    abbrev pub directly : Map → List Edit
    directly m =
        if is_some (asked_bitrate q opts req m)
        then []
        else set (codes "directPlay") (codes "1") ∷ []

    abbrev pub with_index : Map → ℕ → Map
    with_index m i =
        edited q m (set key_index (show i) ∷ set (codes "directStream") (codes "1") ∷ [])

    spares-if :
        (k : Text) (b : Bool) (es : List Edit)
        → spares q k es ≡ true
        → spares q k (if b then [] else es) ≡ true
    spares-if k true es h = unfold spares in refl
    spares-if k false es h = h

    get-fallback_selected :
        (m : Map) (i : ℕ) (k : Text)
        → spares q k (set (codes "directPlay") (codes "1") ∷ []) ≡ true
        → spares q k (set (codes "subtitles") (codes "auto") ∷ []) ≡ true
        → get (fallback_selected q opts req m i) k ≡ get (with_index m i) k
    unfolding fallback_selected
    get-fallback_selected m i k direct subtitles =
        get-edited q (edited q (with_index m i) (directly m)) _ k subtitles
        ∙ get-edited q (with_index m i) (directly m) k (spares-if k _ _ direct)

    path-fallback_selected :
        (m : Map) (i : ℕ) → get (fallback_selected q opts req m i) key_path ≡ get m key_path
    path-fallback_selected m i =
        get-fallback_selected m i key_path (unfold spares text_eq in refl)
          (unfold spares text_eq in refl)
        ∙ get-edited q m (set key_index (show i) ∷ set (codes "directStream") (codes "1") ∷ [])
            key_path (unfold spares text_eq in refl)

    index-with_index : (m : Map) (i : ℕ) → get (with_index m i) key_index ≡ some (show i)
    unfolding edited
    index-with_index m i =
        get-put_ne q (put q m key_index (show i)) (codes "directStream") key_index (codes "1")
          (λ e. ground arith)
        ∙ get-put_self q m key_index (show i)

    index-fallback_selected :
        (m : Map) (i : ℕ) → get (fallback_selected q opts req m i) key_index ≡ some (show i)
    index-fallback_selected m i =
        get-fallback_selected m i key_index (unfold spares text_eq in refl)
          (unfold spares text_eq in refl)
        ∙ index-with_index m i

    module _ (cache : Cache ℤ PartMediaClassification) (security : RequestSecurityContext)
        (media : List Media) (path : Text) where
      abbrev Asks : Map → Type 0
      Asks = AsksAllowed cache security.policy media path

      replace_query-AsksAllowed :
          (parses : Bool) (new old : Map)
          → Asks new
          → Asks old
          → Asks (replace_query q parses new old)
      replace_query-AsksAllowed true new old h k =
          AsksAllowed-SameVersion cache security.policy media path new
            (replace_query q true new old)
            (get-replace_query q new old key_index, get-replace_query q new old key_path) h
      replace_query-AsksAllowed false new old h k = unfold replace_query in k

      picked-AsksAllowed :
          (m : Map) (selected : ℕ) (fallback_for : Text) (candidates : List ℕ)
          → length media < 2 ^ 64
          → All (IsCandidate media selected fallback_for (some security.policy)) candidates
          → Asks m
          → Asks (map_or (head candidates) m (fallback_selected q opts req m))
      picked-AsksAllowed m selected fallback_for [] short all h = h
      picked-AsksAllowed m selected fallback_for (i ∷ is) short all h =
          let c = all.0 in
          let small = lt_of_get_elem? media i c.0 c.1 in
          (
            path-fallback_selected m i ∙ h.0,
            (
              i,
              c.0,
              requested_index_shown q cache (fallback_selected q opts req m i) i
                  (index-fallback_selected m i) (omega arith),
              c.1,
              c.4,
            ),
          )

      fall_back-AsksAllowed :
          (m : Map) (selected : ℕ) (fallback_for : Text)
          → req.security ≡ some (resolved security)
          → length media < 2 ^ 64
          → Asks m
          → Asks (fall_back q opts req m media selected fallback_for)
      unfolding fall_back
      fall_back-AsksAllowed m selected fallback_for known short h =
          let permitted = fallback_indexes-All media selected fallback_for (some security.policy) in
          let candidates : List ℕ =
            if opts.resolution_policy_enabled && false
            then []
            else fallback_indexes media selected fallback_for (some security.policy) in
          let all : All (IsCandidate media selected fallback_for (some security.policy))
              candidates =
            elim (Bool-cases opts.resolution_policy_enabled) [
              | inl on ↦ rw on permitted.0
              | inr off ↦ rw off permitted.0
            ] in
          rw known (
            replace_query-AsksAllowed req.uri_parses _ m
              (picked-AsksAllowed m selected fallback_for candidates short all h) h)

      fallback_for_item-AsksAllowed :
          (m : Map) (selected : ℕ) (fallback_for : Text)
          → req.security ≡ some (resolved security)
          → length media < 2 ^ 64
          → Asks m
          → OutcomeHas q opts req Asks m
              (fallback_for_item q opts req m media selected fallback_for)
      unfolding fallback_for_item
      fallback_for_item-AsksAllowed m selected fallback_for known short h =
          OutcomeHas-if q opts req Asks m _ _ _ (goes_on m h) (
            OutcomeHas-map_or q opts req Asks m (is_transcoding q opts req m) _ _
              (goes_on _ (fall_back-AsksAllowed m selected fallback_for known short h))
              (goes_on m h) h)

      fallback_for_request-AsksAllowed :
          (m : Map) (selected : Option ℕ) (value at : Option Text)
          → at ≡ some path
          → req.security ≡ some (resolved security)
          → req.get_item path ≡ item (some media)
          → length media < 2 ^ 64
          → Asks m
          → OutcomeHas q opts req Asks m (fallback_for_request q opts req m selected value at)
      unfolding fallback_for_request fallback_for_path
      fallback_for_request-AsksAllowed m none value at e known loads short h = goes_on m h
      fallback_for_request-AsksAllowed m (some selected) none at e known loads short h = goes_on m h
      fallback_for_request-AsksAllowed m (some selected) (some value) none e known loads short h =
          goes_on m h
      fallback_for_request-AsksAllowed m (some selected) (some value) (some p) e known loads short
            h =
          let same : p ≡ path = ground arith in
          rw (same, loads)
            (fallback_for_item-AsksAllowed m selected (to_lowercase value) known short h)

      pub video_transcode_fallback-AsksAllowed :
          (m : Map)
          → req.security ≡ some (resolved security)
          → req.get_item path ≡ item (some media)
          → length media < 2 ^ 64
          → Asks m
          → OutcomeHas q opts req Asks m (video_transcode_fallback q opts req m)
      unfolding video_transcode_fallback
      video_transcode_fallback-AsksAllowed m known loads short h =
          OutcomeHas-if q opts req Asks m _ _ _ (goes_on m h) (
            OutcomeHas-if q opts req Asks m _ _ _ (stays h) (
              fallback_for_request-AsksAllowed m (requested_media_index (get m key_index))
                (and_then opts.video_transcode_fallback_for head) (get m key_path) h.0 known loads
                short h))
