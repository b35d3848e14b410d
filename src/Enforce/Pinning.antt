-- ===== src/Enforce/Pinning.antt =====
-- The version that a playback request of a restricted account is pinned to.
use replex.Prelude.{
  ℕ, ◌<◌, ◌^◌, ◌≡◌, refl, ◌∙◌, ◌⊎◌, inl, inr, true, false, Option, none, some, List, Memᴰ, All,
  arith, is_empty, length, get_elem?, Bool-cases, Option-cases, position-some, position_of_mem,
  mem_of_get_elem?, lt_of_get_elem?,
}
use replex.Prelude.Int.{ℤ}
use replex.Prelude.Text.{Text, codes, text_eq}
use replex.Prelude.Text.Decimal.{show, show-head, parse_usize-show}
use replex.Media.{Media}
use replex.Policy.Entries.{ResolutionPolicy, is_unrestricted}
use replex.Policy.Classify.{media_allowed}
use replex.Policy.Select.{
  best_allowed_media, best_allowed_media-IsFirstMin, best_allowed_media-none,
}
use replex.Cache.{Cache}
use replex.Parts.{PartMediaClassification}
use replex.Queries.{Queries, put, replace_query, get-put_self, get-replace_query}
use replex.Enforce.Cap.{path-with_cap}
use replex.Enforce.{
  PlaybackRequest, Playback, item, key_path, key_index, requested_index, index_allowed, same_id,
  pin_best, select_version, with_item, enforce_under, enforce_resolution_policy,
}
use replex.Security.{RequestSecurityContext, resolved}

-- A version is told by its id.
abbrev pub DistinctIds : List Media → Type 0
DistinctIds media = (x y : Media) → Memᴰ x media → Memᴰ y media → x.id ≡ y.id → x ≡ y

same_id_self : (m : Media) → same_id m m ≡ true
same_id_self m = ground arith

same_id-eq : (x y : Media) → same_id x y ≡ true → y.id ≡ x.id
same_id-eq x y h = ground arith

show_not_minus_one : (n : ℕ) → text_eq (show n) (codes "-1") ≡ false
unfolding text_eq
show_not_minus_one n = let r = show-head n in rw r.2 (ground (arith, r.3))

module _ (q : Queries) (cache : Cache ℤ PartMediaClassification) where
  open q use {Map, get}

  pub requested_index_shown :
      (m : Map) (i : ℕ)
      → get m key_index ≡ some (show i)
      → i < 2 ^ 64
      → requested_index q cache m ≡ some i
  unfolding requested_index
  requested_index_shown m i there h = rw (there, show_not_minus_one i) (parse_usize-show i h)

  -- The pinned index is what the request now asks for.
  requested_index-put :
      (m old : Map) (i : ℕ)
      → i < 2 ^ 64
      → requested_index q cache (replace_query q true (put q m key_index (show i)) old) ≡ some i
  requested_index-put m old i h =
      requested_index_shown (replace_query q true (put q m key_index (show i)) old) i
        (get-replace_query q (put q m key_index (show i)) old key_index
          ∙ get-put_self q m key_index (show i))
        h

  -- What a restricted account ends up with: a permitted version of the item, by its index, or a
  -- refusal because there is none. `before` is the refusal that was set before.
  abbrev pub PinsAllowed : ResolutionPolicy → List Media → Option ℕ → Playback q cache → Type 0
  PinsAllowed policy media before r =
      ((r.refused ≡ some 403) × All (λ m. media_allowed m policy ≡ false) media)
      ⊎ ((i : ℕ) × (m : Media) × (r.refused ≡ before)
          × (requested_index q cache r.queries ≡ some i)
          × (get_elem? media i ≡ some m)
          × (media_allowed m policy ≡ true))

  module _ (req : PlaybackRequest) (policy : ResolutionPolicy) (media : List Media) where
    pin_best-PinsAllowed :
        (s : Playback q cache)
        → req.uri_parses ≡ true
        → DistinctIds media
        → length media < 2 ^ 64
        → PinsAllowed policy media s.refused (pin_best q cache req policy media s)
    unfolding pin_best
    pin_best-PinsAllowed s parses distinct short =
        elim (Option-cases (best_allowed_media media policy req.screen)) [
          | inl nothing ↦
              rw (nothing, pin_best)
                (inl (refl, best_allowed_media-none media policy req.screen nothing))
          | inr (best, chosen) ↦ pinned best chosen
        ]
      where
        pinned :
            (best : Media)
            → best_allowed_media media policy req.screen ≡ some best
            → PinsAllowed policy media s.refused (pin_best q cache req policy media s)
        pinned best chosen =
            let first = best_allowed_media-IsFirstMin media policy req.screen best chosen in
            let place = position_of_mem (same_id best) first.0 (same_id_self best) in
            let there = position-some (same_id best) media place.0 place.1 in
            let same =
              distinct there.0 best (mem_of_get_elem? media place.0 there.0 there.1) first.0
                (same_id-eq best there.0 there.2) in
            let small = lt_of_get_elem? media place.0 there.0 there.1 in
            rw (chosen, pin_best, place.1, parses)
              (inr (
                place.0,
                there.0,
                refl,
                requested_index-put s.queries s.queries place.0 (omega arith),
                there.1,
                rw same first.1,
              ))

    -- For a restricted account and an item with versions, the request that goes on asks for a version
    -- of the item that the policy permits; it is refused, with 403, only where there is none.
    pub with_item-PinsAllowed :
        (s : Playback q cache)
        → is_empty media ≡ false
        → req.uri_parses ≡ true
        → DistinctIds media
        → length media < 2 ^ 64
        → PinsAllowed policy media s.refused (with_item q cache req policy (item (some media)) s)
    unfolding with_item select_version
    with_item-PinsAllowed s some_media parses distinct short =
        elim (Bool-cases (index_allowed policy media (requested_index q cache s.queries))) [
          | inr refused ↦ rw (some_media, refused) (pin_best-PinsAllowed _ parses distinct short)
          | inl allowed ↦
              rw (some_media, allowed)
                (inr (asked (requested_index q cache s.queries) refl allowed))
        ]
      where
        asked :
            (o : Option ℕ)
            → requested_index q cache s.queries ≡ o
            → index_allowed policy media o ≡ true
            → (i : ℕ) × (m : Media) × (s.refused ≡ s.refused)
              × (requested_index q cache s.queries ≡ some i)
              × (get_elem? media i ≡ some m)
              × (media_allowed m policy ≡ true)
        asked none e a = cc
        asked (some i) e a = elim (Option-cases (get_elem? media i)) [
          | inl missing ↦ absurd (ground (arith, missing))
          | inr (m, there) ↦ (i, m, refl, e, there, ground (arith, there))
        ]

  -- The same once the account's policy is known.
  pub enforce_under-PinsAllowed :
      (req : PlaybackRequest) (policy : ResolutionPolicy) (media : List Media)
      (s : Playback q cache) (path : Text)
      → is_unrestricted policy ≡ false
      → get s.queries key_path ≡ some path
      → req.get_item path ≡ item (some media)
      → is_empty media ≡ false
      → req.uri_parses ≡ true
      → DistinctIds media
      → length media < 2 ^ 64
      → PinsAllowed policy media s.refused (enforce_under q cache req policy s)
  unfolding enforce_under
  enforce_under-PinsAllowed req policy media s path restricted at loads some_media parses distinct
        short =
      rw (restricted, path-with_cap q cache req policy.max_bitrate s.queries parses, at, loads)
        (with_item-PinsAllowed req policy media _ some_media parses distinct short)

  -- The handler, where it has the state, the context and a client, and the account is known with a
  -- policy that restricts resolutions, for a request that names an item which loads and has versions
  -- with ids of their own (fewer than 2 ^ 64 of them, in a request whose URI parses): it returns, and
  -- what goes on asks for a version of the item that the policy permits, by its index, with no refusal
  -- added; or the request is refused with 403, and then the policy permits none of the versions.
  pub enforce_resolution_policy-PinsAllowed :
      (req : PlaybackRequest) (security : RequestSecurityContext) (media : List Media)
      (s : Playback q cache) (path : Text)
      → req.has_state ≡ true
      → req.runtime.enabled ≡ true
      → req.has_context ≡ true
      → req.has_client ≡ true
      → req.security ≡ some (resolved security)
      → is_unrestricted security.policy ≡ false
      → get s.queries key_path ≡ some path
      → req.get_item path ≡ item (some media)
      → is_empty media ≡ false
      → req.uri_parses ≡ true
      → DistinctIds media
      → length media < 2 ^ 64
      → (r : Playback q cache) × (enforce_resolution_policy q cache req s ≡ some r)
        × PinsAllowed security.policy media s.refused r
  unfolding enforce_resolution_policy
  enforce_resolution_policy-PinsAllowed req security media s path state on context client known
        restricted at loads some_media parses distinct short =
      (
        enforce_under q cache req security.policy s,
        rw (state, on, context, client, known) refl,
        enforce_under-PinsAllowed req security.policy media s path restricted at loads some_media
            parses distinct short,
      )
