-- ===== src/Playback/Uncapped.antt =====
-- What `force_maximum_quality` does to the bitrate cap of the account.
use replex.Prelude.{
  ◌≡◌, refl, ◌∙◌, true, false, Option, none, some, List, [], ◌∷◌, ◌-◌, ◌^◌, ◌≢◌, inl, inr, arith,
  is_some, not, ◌&&◌, and_then, or_else, Option-cases,
}
use replex.Prelude.Int.{ℤ, pos, ◌≤ℤ◌}
use replex.Prelude.Text.{Text, codes, text_eq}
use replex.Prelude.Text.Decimal.{parse_i64}
use replex.Enforce.Cap.{requested_bitrate-cap_bitrate}
use replex.Cache.{Cache}
use replex.Parts.{PartMediaClassification}
use replex.Queries.{Queries, replace_query, get-replace_query}
use replex.Enforce.{PlaybackRequest, key_max_bitrate, key_bitrate, requested_bitrate, cap_bitrate}
use replex.Playback.Edits.{Edit, set, edited, spares, get-edited}
use replex.Playback.{
  Settings, went_on, at_full_quality, with_buffer_size, with_profile, direct_play,
  force_maximum_quality, key_buffer, key_profile,
}

module _ (q : Queries) (opts : Settings q) (req : PlaybackRequest) where
  open q use {Map, get, remove, get-remove_self, get-remove_ne}

  -- The changes behind the two that drop the bitrates.
  abbrev quality : List Edit
  quality =
      set (codes "autoAdjustQuality") (codes "0")
      ∷ set (codes "directStream") (codes "1")
      ∷ set (codes "directPlay") (codes "1")
      ∷ set (codes "videoQuality") (codes "100")
      ∷ []

  max_ne_bitrate : key_bitrate ≢ key_max_bitrate
  max_ne_bitrate e = ground arith

  abbrev NoBitrate : Map → Type 0
  NoBitrate m = (get m key_max_bitrate ≡ none) × (get m key_bitrate ≡ none)

  edited-NoBitrate :
      (m : Map) (es : List Edit)
      → spares q key_max_bitrate es ≡ true
      → spares q key_bitrate es ≡ true
      → NoBitrate m
      → NoBitrate (edited q m es)
  edited-NoBitrate m es i p h =
      (get-edited q m es key_max_bitrate i ∙ h.0, get-edited q m es key_bitrate p ∙ h.1)

  at_full_quality-NoBitrate : (m : Map) → NoBitrate (at_full_quality q opts req m)
  unfolding at_full_quality edited
  at_full_quality-NoBitrate m =
      edited-NoBitrate (remove (remove m key_max_bitrate) key_bitrate) quality
        (unfold spares text_eq in refl) (unfold spares text_eq in refl)
        (
          get-remove_ne (remove m key_max_bitrate) key_bitrate key_max_bitrate max_ne_bitrate
              ∙ get-remove_self m key_max_bitrate,
          get-remove_self (remove m key_max_bitrate) key_bitrate,
        )

  with_buffer_size-NoBitrate : (m : Map) → NoBitrate m → NoBitrate (with_buffer_size q opts req m)
  unfolding with_buffer_size
  with_buffer_size-NoBitrate m h = elim (Option-cases (get m key_buffer)) [
    | inl absent ↦ rw (absent, with_buffer_size) h
    | inr (raw, present) ↦
        rw (present, with_buffer_size)
          (edited-NoBitrate m _ (unfold spares text_eq in refl) (unfold spares text_eq in refl) h)
  ]

  with_profile-NoBitrate : (m : Map) → NoBitrate m → NoBitrate (with_profile q opts req m)
  unfolding with_profile
  with_profile-NoBitrate m h = elim (Option-cases (get m key_profile)) [
    | inl absent ↦ rw (absent, with_profile) h
    | inr (raw, present) ↦
        rw (present, with_profile)
          (edited-NoBitrate m _ (unfold spares text_eq in refl) (unfold spares text_eq in refl) h)
  ]

  module _ (cache : Cache ℤ PartMediaClassification) where
    abbrev changed : Map → Map
    changed m = with_profile q opts req (with_buffer_size q opts req (at_full_quality q opts req m))

    changed-NoBitrate : (m : Map) → NoBitrate (changed m)
    changed-NoBitrate m =
        with_profile-NoBitrate _ (with_buffer_size-NoBitrate _ (at_full_quality-NoBitrate m))

    asked_nowhere : (m : Map) → NoBitrate m → requested_bitrate q cache m ≡ none
    unfolding requested_bitrate
    asked_nowhere m h = rw (h.0, h.1) refl

    asked_somewhere :
        (m : Map) (b : ℤ)
        → requested_bitrate q cache m ≡ some b
        → (not (is_some (get m key_max_bitrate)) && not (is_some (get m key_bitrate))) ≡ false
    unfolding requested_bitrate
    asked_somewhere m b asked = keys (get m key_max_bitrate) (get m key_bitrate) asked
      where
        keys :
            (x y : Option Text)
            → and_then (or_else x y) parse_i64 ≡ some b
            → (not (is_some x) && not (is_some y)) ≡ false
        keys (some x) y e = refl
        keys none (some y) e = refl
        keys none none e = cc

    -- Where `force_maximum_quality` does its work, with no resolutions that are always played
    -- directly, on a request whose URI parses: behind the cap of an account (from 0 to the largest
    -- `i64`) it makes the request one that asks for no bitrate at all.
    pub force_maximum_quality_uncaps :
        (cap : ℤ) (m : Map)
        → opts.skip_optional_transforms ≡ false
        → (req.has_context && (req.has_client && req.has_state)) ≡ true
        → opts.force_direct_play_for ≡ none
        → req.uri_parses ≡ true
        → pos 0 ≤ℤ cap
        → cap ≤ℤ pos (2 ^ 63 - 1)
        → (new : Map) × (force_maximum_quality q opts req (cap_bitrate q cache req cap m)
            ≡ went_on new)
          × (requested_bitrate q cache new ≡ none)
    unfolding force_maximum_quality direct_play
    force_maximum_quality_uncaps cap m runs ready plain parses lo hi =
        let old = cap_bitrate q cache req cap m in
        let asked = requested_bitrate-cap_bitrate q cache req cap m parses lo hi in
        let gone = changed-NoBitrate old in
        (
          replace_query q true (changed old) old,
          rw (runs, ready, asked_somewhere old asked.0 asked.1, plain, parses) refl,
          asked_nowhere (replace_query q true (changed old) old) (
            get-replace_query q (changed old) old key_max_bitrate ∙ gone.0,
            get-replace_query q (changed old) old key_bitrate ∙ gone.1,
          ),
        )
