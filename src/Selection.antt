-- ===== src/Selection.antt =====
-- playback_selection.rs: which version of an item a playback request means, fits a screen, or may
-- stand in for another one, by their original positions.
pub mod Fallback
pub mod Fit
use replex.Prelude.{
  ℕ, zero, suc, ◌-◌, ◌+◌, ◌*◌, ◌^◌, ◌&&◌, ◌||◌, ◌==◌, Bool, true, false, not, Option, none, some,
  List, [], ◌∷◌, ltb, leb, if◌then◌else◌, map, filter, any, and_then, map_or, get_elem?, head,
  unwrap_or,
}
use replex.Prelude.Int.{ℤ, pos, negsuc, leb_ℤ}
use replex.Prelude.Text.{Text, codes, text_eq, is_text, eq_ignore_ascii_case}
use replex.Prelude.Text.Decimal.{parse_usize}
use replex.Prelude.Minimum.{min_by}
use replex.Media.{Media, MediaPart, Stream}
use replex.Metadata.{item_of}
use replex.Policy.Entries.{ResolutionPolicy}
use replex.Policy.Classify.{media_allowed}
use replex.Transform.{MediaContainer}

unfoldable pub requested_media_index : Option Text → Option ℕ
unfolding text_eq parse_usize
requested_media_index none = some 0
requested_media_index (some value) =
    if text_eq value (codes "-1") then some 0 else parse_usize value

-- `u128::try_from` of an `i64`.
abbrev pub to_u128 : ℤ → Option ℕ
to_u128 (pos n) = some n
to_u128 (negsuc n) = none

-- `u128::checked_mul`
abbrev pub checked_mul : ℕ → ℕ → Option ℕ
checked_mul a b = if ltb (a * b) (2 ^ 128) then some (a * b) else none

abbrev pub area : ℤ → ℤ → Option ℕ
area w h = and_then (to_u128 w) (λ a. and_then (to_u128 h) (λ b. checked_mul a b))

unfoldable pub density : Media → Option ℕ
density m = and_then m.width (λ w. and_then m.height (λ h. area w h))

abbrev pub abs_diff : ℕ → ℕ → ℕ
abs_diff a b = if ltb a b then b - a else a - b

-- The key of `min_by_key`, compared in order.
abbrev pub FitKey : Type 0
FitKey = ℕ × ℕ × ℕ

unfoldable pub fit_key : ℕ → Media → FitKey
unfolding density
fit_key screen_density m = elim (density m) [
  | some value ↦ (0, abs_diff value screen_density, 2 ^ 128 - 1 - value)
  | none ↦ (1, 2 ^ 128 - 1, 2 ^ 128 - 1)
]

abbrev pub key_less : FitKey → FitKey → Bool
key_less (a, b, c) (d, e, f) = ltb a d || (a == d && (ltb b e || (b == e && ltb c f)))

unfoldable pub enumerate : ℕ → List Media → List (ℕ × Media)
enumerate i [] = []
enumerate i (m ∷ media) = (i, m) ∷ enumerate (suc i) media

abbrev pub fits_better : ℕ → ℕ × Media → ℕ × Media → Bool
fits_better screen_density a b = key_less (fit_key screen_density a.1) (fit_key screen_density b.1)

unfoldable pub best_fit_index : List Media → ℤ × ℤ → Option ℕ
unfolding fit_key enumerate min_by
best_fit_index media screen = and_then (area screen.0 screen.1) (λ screen_density.
    and_then (min_by (fits_better screen_density) (enumerate 0 media)) (λ r. some r.0))

unfoldable pub is_fallback : ℕ → Text → Option ResolutionPolicy → ℕ × Media → Bool
unfolding eq_ignore_ascii_case media_allowed
is_fallback selected_index fallback_resolution policy (i, m) =
    not (i == selected_index)
    && (map_or m.video_resolution false (λ v. not (eq_ignore_ascii_case v fallback_resolution))
        && map_or policy true (media_allowed m))

-- The density of a version by its index, 0 where it is not known.
unfoldable pub density_at : List Media → ℕ → ℕ
unfolding density
density_at media i = unwrap_or (and_then (get_elem? media i) density) 0

-- `sort_by_key` with `Reverse`: stable, the highest key first.
unfoldable pub insert_by : (ℕ → ℕ) → ℕ → List ℕ → List ℕ
insert_by key i [] = i ∷ []
insert_by key i (j ∷ js) =
    let rest = insert_by key i js in if ltb (key i) (key j) then j ∷ rest else i ∷ j ∷ js

unfoldable pub sort_by : (ℕ → ℕ) → List ℕ → List ℕ
unfolding insert_by
sort_by key [] = []
sort_by key (i ∷ is) = insert_by key i (sort_by key is)

unfoldable pub fallback_indexes : List Media → ℕ → Text → Option ResolutionPolicy → List ℕ
unfolding is_fallback density_at sort_by enumerate filter
fallback_indexes media selected_index fallback_resolution policy = sort_by (density_at media) (
    map (λ c. c.0)
      (filter (is_fallback selected_index fallback_resolution policy) (enumerate 0 media)))

-- A video stream of the first part that Plex decided to transcode.
unfoldable pub decision_is_transcoding : MediaContainer → Bool
unfolding any is_text
decision_is_transcoding decision =
    map_or
      (and_then (head decision.metadata)
        (λ x. and_then (head (item_of x).media) (λ m. head m.parts)))
      false
      (λ part.
        any
          (λ stream.
            map_or stream.stream_type false (λ t. leb_ℤ t (pos 1) && leb_ℤ (pos 1) t)
            && is_text stream.decision (codes "transcode"))
          part.streams)
