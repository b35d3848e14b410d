-- ===== src/Playback/Keeps.antt =====
-- The hoops that run behind the policy keep the version that it pinned, or pick a permitted one.
use replex.Prelude.{
  ℕ, ◌≡◌, refl, ◌∙◌, inl, inr, Bool, true, false, Option, none, some, List, [], ◌∷◌, arith, map_or,
  get_elem?, if◌then◌else◌, Bool-cases, Option-cases,
}
use replex.Prelude.Text.{Text, codes, text_eq, to_lowercase}
use replex.Queries.{Queries, replace_query, get-replace_query}
use replex.Enforce.{PlaybackRequest, ItemLookup, item_error, item, key_path, key_index}
use replex.Playback.Edits.{Edit, set, drop_key, edited, spares, get-edited}
use replex.Playback.{
  media_index, Trial, decided, bad_request, unusable, Settings, Outcome, went_on, failed_hoop,
  at_full_quality, with_buffer_size, with_profile, forced_direct, direct_play_item, direct_play,
  force_maximum_quality, key_buffer, key_profile,
}
use replex.Playback.Fallbacks.{after_trial, with_direct_stream, direct_stream_fallback}

module _ (q : Queries) where
  open q use {Map, get}

  -- The two parameters that decide about the version.
  abbrev pub SameVersion : Map → Map → Type 0
  SameVersion old new =
      (get new key_index ≡ get old key_index) × (get new key_path ≡ get old key_path)

  SameVersion-trans : (a b c : Map) → SameVersion a b → SameVersion b c → SameVersion a c
  SameVersion-trans a b c h k = (k.0 ∙ h.0, k.1 ∙ h.1)

  edited-SameVersion :
      (m : Map) (es : List Edit)
      → spares q key_index es ≡ true
      → spares q key_path es ≡ true
      → SameVersion m (edited q m es)
  edited-SameVersion m es i p = (get-edited q m es key_index i, get-edited q m es key_path p)

  replace_query-SameVersion :
      (parses : Bool) (new old : Map)
      → SameVersion old new
      → SameVersion old (replace_query q parses new old)
  replace_query-SameVersion true new old h =
      (get-replace_query q new old key_index ∙ h.0, get-replace_query q new old key_path ∙ h.1)
  replace_query-SameVersion false new old h = unfold replace_query in (refl, refl)

  module _ (opts : Settings q) (req : PlaybackRequest) where
    at_full_quality-SameVersion : (m : Map) → SameVersion m (at_full_quality q opts req m)
    unfolding at_full_quality
    at_full_quality-SameVersion m =
        edited-SameVersion m _ (unfold spares text_eq in refl) (unfold spares text_eq in refl)

    with_buffer_size-SameVersion : (m : Map) → SameVersion m (with_buffer_size q opts req m)
    unfolding with_buffer_size
    with_buffer_size-SameVersion m = elim (Option-cases (get m key_buffer)) [
      | inl absent ↦ rw (absent, with_buffer_size) (refl, refl)
      | inr (raw, present) ↦
          rw (present, with_buffer_size)
            (edited-SameVersion m _ (unfold spares text_eq in refl) (unfold spares text_eq in refl))
    ]

    with_profile-SameVersion : (m : Map) → SameVersion m (with_profile q opts req m)
    unfolding with_profile
    with_profile-SameVersion m = elim (Option-cases (get m key_profile)) [
      | inl absent ↦ rw (absent, with_profile) (refl, refl)
      | inr (extra, present) ↦
          rw (present, with_profile)
            (edited-SameVersion m _ (unfold spares text_eq in refl) (unfold spares text_eq in refl))
    ]

    forced_direct-SameVersion :
        (resos : List Text) (resolution : Option Text) (m : Map)
        → SameVersion m (forced_direct q opts req resos resolution m)
    unfolding forced_direct
    forced_direct-SameVersion [] resolution m = (refl, refl)
    forced_direct-SameVersion (reso ∷ resos) resolution m =
        let forced : Map =
          edited q m
            (set (codes "directPlay") (codes "1") ∷ drop_key (codes "videoResolution") ∷ []) in
        elim (Bool-cases
          (map_or resolution false (λ r. text_eq (to_lowercase r) (to_lowercase reso)))) [
            | inl matches ↦ rw matches (
                SameVersion-trans m forced (forced_direct q opts req resos resolution forced)
                  (edited-SameVersion m _ (unfold spares text_eq in refl)
                    (unfold spares text_eq in refl))
                  (forced_direct-SameVersion resos resolution forced))
            | inr other ↦ rw other (forced_direct-SameVersion resos resolution m)
          ]

    direct_play_item-SameVersion :
        (resos : List Text) (index : ℕ) (found : ItemLookup) (m new : Map)
        → direct_play_item q opts req resos index found m ≡ some new
        → SameVersion m new
    unfolding direct_play_item
    direct_play_item-SameVersion resos index item_error m new h = cc
    direct_play_item-SameVersion resos index (item none) m new h = cc
    direct_play_item-SameVersion resos index (item (some media)) m new h =
        elim (Option-cases (get_elem? media index)) [
          | inl missing ↦ absurd (ground (arith, missing))
          | inr (x, there) ↦
              let e : forced_direct q opts req resos x.video_resolution m ≡ new =
                ground (arith, there) in
              rw (← e) (forced_direct-SameVersion resos x.video_resolution m)
        ]

    direct_play-SameVersion :
        (forced : Option (List Text)) (path : Option Text) (index : ℕ) (m new : Map)
        → direct_play q opts req forced path index m ≡ some new
        → SameVersion m new
    unfolding direct_play
    direct_play-SameVersion none path index m new h =
        let e : m ≡ new = ground arith in rw (← e) (refl, refl)
    direct_play-SameVersion (some resos) none index m new h =
        let e : m ≡ new = ground arith in rw (← e) (refl, refl)
    direct_play-SameVersion (some resos) (some path) index m new h =
        direct_play_item-SameVersion resos index (req.get_item path) m new h

    -- What `force_maximum_quality` makes of the parameters before it looks at the item.
    abbrev pub quality_changes : Map → Map
    quality_changes m =
        with_profile q opts req (with_buffer_size q opts req (at_full_quality q opts req m))

    quality_changes-SameVersion : (m : Map) → SameVersion m (quality_changes m)
    quality_changes-SameVersion m =
        let a = at_full_quality q opts req m in
        let b = with_buffer_size q opts req a in
        SameVersion-trans m b (quality_changes m)
          (SameVersion-trans m a b (at_full_quality-SameVersion m) (with_buffer_size-SameVersion a))
          (with_profile-SameVersion b)

    -- A property of the parameters that an outcome leaves.
    pub data OutcomeHas (P : Map → Type 0) (m : Map) : Outcome q → Type 0 where
      goes_on : (new : Map) → P new → OutcomeHas P m (went_on new)
      stays : P m → OutcomeHas P m failed_hoop

    replaced-SameVersion :
        (m : Map) (played : Option Map)
        → ((new : Map) → played ≡ some new → SameVersion m new)
        → SameVersion m (map_or played m (λ new. replace_query q req.uri_parses new m))
    replaced-SameVersion m none h = (refl, refl)
    replaced-SameVersion m (some new) h =
        replace_query-SameVersion req.uri_parses new m (h new refl)

    pub OutcomeHas-if :
        (P : Map → Type 0) (m : Map) (b : Bool) (x y : Outcome q)
        → OutcomeHas P m x
        → OutcomeHas P m y
        → OutcomeHas P m (if b then x else y)
    OutcomeHas-if P m true x y h k = h
    OutcomeHas-if P m false x y h k = k

    pub OutcomeHas-map_or :
        (P : Map → Type 0) (m : Map) (b : Option Bool) (x y : Outcome q)
        → OutcomeHas P m x
        → OutcomeHas P m y
        → P m
        → OutcomeHas P m (map_or b failed_hoop (λ c. if c then x else y))
    OutcomeHas-map_or P m none x y h k p = stays p
    OutcomeHas-map_or P m (some c) x y h k p = OutcomeHas-if P m c x y h k

    -- The hoop's `force_maximum_quality` keeps the version that is asked for.
    pub force_maximum_quality-SameVersion :
        (m : Map) → OutcomeHas (SameVersion m) m (force_maximum_quality q opts req m)
    unfolding force_maximum_quality
    force_maximum_quality-SameVersion m =
        let changed = replaced-SameVersion m _ (λ new h.
          SameVersion-trans m (quality_changes m) new (quality_changes-SameVersion m) (
            direct_play-SameVersion opts.force_direct_play_for (get (quality_changes m) key_path)
              (media_index q opts req (get m key_index)) (quality_changes m) new h)) in
        let P = SameVersion m in
        OutcomeHas-if P m _ _ _ (goes_on m (refl, refl)) (
          OutcomeHas-if P m _ _ _ (stays (refl, refl))
            (OutcomeHas-if P m _ _ _ (goes_on m (refl, refl)) (goes_on _ changed)))

    with_direct_stream-SameVersion : (m : Map) → SameVersion m (with_direct_stream q opts req m)
    unfolding with_direct_stream
    with_direct_stream-SameVersion m = elim (Bool-cases req.uri_parses) [
      | inl parses ↦
          rw (parses, with_direct_stream)
            (edited-SameVersion m _ (unfold spares text_eq in refl) (unfold spares text_eq in refl))
      | inr fails ↦ rw (fails, with_direct_stream) (refl, refl)
    ]

    after_trial-SameVersion :
        (m : Map) (t : Trial) → OutcomeHas (SameVersion m) m (after_trial q opts req m t)
    unfolding after_trial
    after_trial-SameVersion m (decided code) =
        OutcomeHas-if (SameVersion m) m _ _ _ (goes_on _ (with_direct_stream-SameVersion m))
          (goes_on m (refl, refl))
    after_trial-SameVersion m bad_request = goes_on _ (with_direct_stream-SameVersion m)
    after_trial-SameVersion m unusable = stays (refl, refl)

    pub direct_stream_fallback-SameVersion :
        (m : Map) → OutcomeHas (SameVersion m) m (direct_stream_fallback q opts req m)
    unfolding direct_stream_fallback
    direct_stream_fallback-SameVersion m =
        let P = SameVersion m in
        OutcomeHas-if P m _ _ _ (goes_on m (refl, refl)) (
          OutcomeHas-if P m _ _ _ (stays (refl, refl)) (
            OutcomeHas-if P m _ _ _ (goes_on m (refl, refl))
              (after_trial-SameVersion m (opts.try_request m))))
