-- ===== src/Playback/Safety.antt =====
-- The playback routes as a whole: what a restricted account's request asks for behind every hoop.
use replex.Prelude.{
  ℕ, ◌<◌, ◌^◌, ◌≡◌, refl, ◌∙◌, ◌≢◌, ◌⊎◌, inl, inr, Bool, true, false, none, some, List, All, arith,
  is_empty, is_some, ◌||◌, length, position, if◌then◌else◌, Bool-cases, Option-cases,
}
use replex.Prelude.Int.{ℤ}
use replex.Prelude.Text.{Text}
use replex.Prelude.Text.Decimal.{show}
use replex.Media.{Media}
use replex.Policy.Entries.{ResolutionPolicy, is_unrestricted}
use replex.Policy.Classify.{media_allowed}
use replex.Policy.Select.{best_allowed_media}
use replex.Cache.{Cache}
use replex.Parts.{PartMediaClassification}
use replex.Queries.{Queries, put, replace_query, get-put_ne, get-replace_query}
use replex.Security.{RequestSecurityContext, resolved}
use replex.Enforce.Cap.{path-with_cap}
use replex.Enforce.Pinning.{DistinctIds, PinsAllowed, enforce_under-PinsAllowed}
use replex.Enforce.{
  PlaybackRequest, Playback, item, key_path, key_index, requested_index, index_allowed, same_id,
  pin_best, select_version, with_item, enforce_under, enforce_resolution_policy,
}
use replex.Playback.{
  Settings, Outcome, went_on, failed_hoop, auto_select_version, force_maximum_quality,
}
use replex.Playback.Fallbacks.{video_transcode_fallback, direct_stream_fallback}
use replex.Playback.Chain.{with_outcome, hoop, enforced, start_route, decision_route}
use replex.Playback.Keeps.{
  SameVersion, OutcomeHas, goes_on, stays, force_maximum_quality-SameVersion,
  direct_stream_fallback-SameVersion,
}
use replex.Playback.Permitted.{
  AsksAllowed, AsksAllowed-SameVersion, auto_select_version-same,
  video_transcode_fallback-AsksAllowed,
}

index_ne_path : key_index ≢ key_path
index_ne_path e = ground arith

module _ (q : Queries) (cache : Cache ℤ PartMediaClassification) (opts : Settings q)
    (req : PlaybackRequest) where
  open q use {Map, get}

  path-replaced :
      (parses : Bool) (m : Map) (i : ℕ)
      → get (replace_query q parses (put q m key_index (show i)) m) key_path ≡ get m key_path
  path-replaced true m i =
      get-replace_query q (put q m key_index (show i)) m key_path
      ∙ get-put_ne q m key_index key_path (show i) index_ne_path
  path-replaced false m i = unfold replace_query in refl

  path-pin_best :
      (policy : ResolutionPolicy) (media : List Media) (s : Playback q cache)
      → get (pin_best q cache req policy media s).queries key_path ≡ get s.queries key_path
  unfolding pin_best
  path-pin_best policy media s = elim (Option-cases (best_allowed_media media policy req.screen)) [
    | inl nothing ↦ rw (nothing, pin_best) refl
    | inr (best, chosen) ↦ elim (Option-cases (position (same_id best) media)) [
      | inl nowhere ↦ rw (chosen, nowhere, pin_best) refl
      | inr (i, there) ↦ rw (chosen, there, pin_best) (path-replaced req.uri_parses s.queries i)
    ]
  ]

  path-select_version :
      (policy : ResolutionPolicy) (media : List Media) (s : Playback q cache)
      → get (select_version q cache req policy media s).queries key_path ≡ get s.queries key_path
  unfolding select_version
  path-select_version policy media s =
      elim (Bool-cases (index_allowed policy media (requested_index q cache s.queries))) [
        | inl allowed ↦ rw allowed refl
        | inr other ↦ rw other (path-pin_best policy media _)
      ]

  path-enforce_under :
      (policy : ResolutionPolicy) (media : List Media) (path : Text) (s : Playback q cache)
      → is_unrestricted policy ≡ false
      → req.uri_parses ≡ true
      → get s.queries key_path ≡ some path
      → req.get_item path ≡ item (some media)
      → get (enforce_under q cache req policy s).queries key_path ≡ some path
  unfolding enforce_under with_item
  path-enforce_under policy media path s restricted parses at loads =
      let kept = path-with_cap q cache req policy.max_bitrate s.queries parses in
      elim (Bool-cases (is_empty media)) [
        | inl nothing ↦ rw (restricted, kept, at, loads, nothing) (kept ∙ at)
        | inr versions ↦
            rw (restricted, kept, at, loads, versions)
              (path-select_version policy media _ ∙ kept ∙ at)
      ]

  module _ (security : RequestSecurityContext) (media : List Media) (path : Text) where
    abbrev Asks : Map → Type 0
    Asks = AsksAllowed q opts req cache security.policy media path

    -- The request asks for a version that the policy permits, and is not refused; or it is refused
    -- with 403, and the policy permits no version.
    abbrev pub IsSettled : Playback q cache → Type 0
    IsSettled s =
        ((s.refused ≡ some 403) × All (λ m. media_allowed m security.policy ≡ false) media)
        ⊎ ((s.refused ≡ none) × Asks s.queries)

    with_outcome-IsSettled :
        (s : Playback q cache) (o : Outcome q)
        → s.refused ≡ none
        → OutcomeHas q opts req Asks s.queries o
        → IsSettled (with_outcome q cache opts req s o)
    with_outcome-IsSettled s (went_on m) free (goes_on new h) = inr (free, h)
    with_outcome-IsSettled s failed_hoop free (stays h) = inr (free, h)

    if-IsSettled :
        (b : Bool) (s t : Playback q cache)
        → (b ≡ true → IsSettled s)
        → (b ≡ false → IsSettled t)
        → IsSettled (if b then s else t)
    if-IsSettled true s t h k = h refl
    if-IsSettled false s t h k = k refl

    hoop-IsSettled :
        (registered : Bool) (f : Map → Outcome q) (s : Playback q cache)
        → ((m : Map) → Asks m → OutcomeHas q opts req Asks m (f m))
        → IsSettled s
        → IsSettled (hoop q cache opts req registered f s)
    hoop-IsSettled false f s keeps h = h
    hoop-IsSettled true f s keeps h =
        if-IsSettled (is_some s.refused) s _ (λ e. h) (λ free. going free h)
      where
        going :
            is_some s.refused ≡ false
            → IsSettled s
            → IsSettled (with_outcome q cache opts req s (f s.queries))
        going free (inl refused) = absurd (ground arith)
        going free (inr asks) =
            with_outcome-IsSettled s (f s.queries) asks.0 (keeps s.queries asks.1)

    SameVersion-Asks :
        (m : Map) (o : Outcome q)
        → Asks m
        → OutcomeHas q opts req (SameVersion q m) m o
        → OutcomeHas q opts req Asks m o
    SameVersion-Asks m (went_on new) h (goes_on n same) =
        goes_on new
          (AsksAllowed-SameVersion q opts req cache security.policy media path m new same h)
    SameVersion-Asks m failed_hoop h (stays same) = stays h

    start_route-IsSettled :
        (s : Playback q cache)
        → IsSettled (enforced q cache opts req s)
        → IsSettled (start_route q cache opts req s)
    unfolding start_route
    start_route-IsSettled s h =
        hoop-IsSettled (opts.force_maximum_quality || opts.disable_transcode)
          (force_maximum_quality q opts req) _
          (λ m a.
            SameVersion-Asks m (force_maximum_quality q opts req m) a
              (force_maximum_quality-SameVersion q opts req m))
          (hoop-IsSettled opts.auto_select_version (λ m. went_on (auto_select_version q opts req m))
            _ (λ m a. rw (auto_select_version-same q opts req cache m a.1.0 a.1.2) (goes_on m a)) h)

    decision_route-IsSettled_behind :
        (s : Playback q cache)
        → req.security ≡ some (resolved security)
        → req.get_item path ≡ item (some media)
        → length media < 2 ^ 64
        → IsSettled (enforced q cache opts req s)
        → IsSettled (decision_route q cache opts req s)
    unfolding decision_route
    decision_route-IsSettled_behind s known loads short h =
        hoop-IsSettled true (direct_stream_fallback q opts req) _
          (λ m a.
            SameVersion-Asks m (direct_stream_fallback q opts req m) a
              (direct_stream_fallback-SameVersion q opts req m))
          (hoop-IsSettled (is_some opts.video_transcode_fallback_for)
            (video_transcode_fallback q opts req) _
            (λ m a.
              video_transcode_fallback-AsksAllowed q opts req cache security media path m known
                loads short a)
            (start_route-IsSettled s h))

    enforced-IsSettled :
        (s : Playback q cache)
        → opts.resolution_policy_enabled ≡ true
        → req.has_state ≡ true
        → req.runtime.enabled ≡ true
        → req.has_context ≡ true
        → req.has_client ≡ true
        → req.security ≡ some (resolved security)
        → is_unrestricted security.policy ≡ false
        → s.refused ≡ none
        → get s.queries key_path ≡ some path
        → req.get_item path ≡ item (some media)
        → is_empty media ≡ false
        → req.uri_parses ≡ true
        → DistinctIds media
        → length media < 2 ^ 64
        → IsSettled (enforced q cache opts req s)
    unfolding enforce_resolution_policy enforce_under
    enforced-IsSettled s registered state on context client known restricted free at loads
          some_media parses distinct short =
        rw (registered, enforce_resolution_policy, state, on, context, client, known)
          (settled (enforce_under q cache req security.policy s)
            (path-enforce_under security.policy media path s restricted parses at loads)
            (enforce_under-PinsAllowed q cache req security.policy media s path restricted at loads
              some_media parses distinct short))
      where
        settled :
            (r : Playback q cache)
            → get r.queries key_path ≡ some path
            → PinsAllowed q cache security.policy media s.refused r
            → IsSettled r
        settled r kept (inl refused) = inl refused
        settled r kept (inr (i, m, same, asked, there, permitted)) =
            inr (same ∙ free, (kept, (i, m, asked, there, permitted)))

    -- The routes of `start`, `subtitles` and `decision`, with the policies configured and on, for a
    -- known account whose policy restricts resolutions: a request that no earlier handler refused,
    -- for an item that loads and has versions with ids of their own (fewer than 2 ^ 64 of them, in a
    -- request whose URI parses), comes out of all the hoops asking for that item in a version that
    -- the policy permits, by its index, and is not refused; or it is refused with 403, and then the
    -- policy permits none of the versions. This holds whatever the other hoops are configured to do,
    -- and whatever Plex answers them.
    pub decision_route-IsSettled :
        (s : Playback q cache)
        → opts.resolution_policy_enabled ≡ true
        → req.has_state ≡ true
        → req.runtime.enabled ≡ true
        → req.has_context ≡ true
        → req.has_client ≡ true
        → req.security ≡ some (resolved security)
        → is_unrestricted security.policy ≡ false
        → s.refused ≡ none
        → get s.queries key_path ≡ some path
        → req.get_item path ≡ item (some media)
        → is_empty media ≡ false
        → req.uri_parses ≡ true
        → DistinctIds media
        → length media < 2 ^ 64
        → IsSettled (start_route q cache opts req s) × IsSettled (decision_route q cache opts req s)
    decision_route-IsSettled s registered state on context client known restricted free at loads
          some_media parses distinct short =
        let first =
          enforced-IsSettled s registered state on context client known restricted free at loads
            some_media parses distinct short in
        (start_route-IsSettled s first, decision_route-IsSettled_behind s known loads short first)
