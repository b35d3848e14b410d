-- ===== src/Policy/Select.antt =====
-- `allowed_media` and `best_allowed_media`.
pub mod Nearest
use replex.Prelude.{
  filter-nil, ◌≡◌, refl, Bool, true, false, Option, none, some, List, [], ◌∷◌, Memᴰ, All, arith,
  filter, is_empty, unwrap_or, if◌then◌else◌, mem_of_mem-filter, test_of_mem-filter,
}
use replex.Prelude.Int.{ℤ, pos, ltb_ℤ, mul_i64, sub_i64, abs_i64, neg_i64}
use replex.Prelude.Minimum.{
  IsOrder, IsFirstMin, min_by, min_by-IsFirstMin, min_by-none, IsFirstMin-mem,
}
use replex.Media.{Media}
use replex.Policy.Entries.{ResolutionPolicy}
use replex.Policy.Classify.{media_allowed}

unfoldable pub allowed_media : List Media → ResolutionPolicy → List Media
allowed_media media policy = filter (λ m. media_allowed m policy) media

-- Pixels, in `i64`; what is unknown counts as 0.
unfoldable pub density : Media → ℤ
unfolding mul_i64
density m = mul_i64 (unwrap_or m.width (pos 0)) (unwrap_or m.height (pos 0))

-- The distance from the screen, or the density downwards where no screen is known.
unfoldable pub key : Option ℤ → Media → ℤ
unfolding density sub_i64 abs_i64 neg_i64
key (some device) m = abs_i64 (sub_i64 (density m) device)
key none m = neg_i64 (density m)

abbrev pub device_density : Option (ℤ × ℤ) → Option ℤ
device_density none = none
device_density (some (w, h)) = some (mul_i64 w h)

abbrev pub closer : Option (ℤ × ℤ) → Media → Media → Bool
closer screen a b = ltb_ℤ (key (device_density screen) a) (key (device_density screen) b)

unfoldable pub best_allowed_media : List Media → ResolutionPolicy → Option (ℤ × ℤ) → Option Media
unfolding min_by key allowed_media
best_allowed_media media policy screen =
    let candidates = allowed_media media policy in
    if is_empty candidates then none else min_by (closer screen) candidates

closer-IsOrder : (screen : Option (ℤ × ℤ)) → IsOrder (closer screen)
closer-IsOrder screen = record { asym = λ a b h. ground arith; chain = λ a b c h k. ground arith }

-- The version that is chosen is one of the item's, is permitted, and is the first of those
-- permitted whose key is least.
pub best_allowed_media-IsFirstMin :
    (media : List Media) (policy : ResolutionPolicy) (screen : Option (ℤ × ℤ)) (best : Media)
    → best_allowed_media media policy screen ≡ some best
    → Memᴰ best media
      × (media_allowed best policy ≡ true)
      × IsFirstMin (closer screen) (allowed_media media policy) best
unfolding best_allowed_media
best_allowed_media-IsFirstMin media policy screen best h =
    let least =
      min_by-IsFirstMin (closer-IsOrder screen) (allowed_media media policy) best (ground arith) in
    let found = IsFirstMin-mem (allowed_media media policy) best least in
    (mem_of_mem-filter _ media found, test_of_mem-filter _ media found, least)

-- No version is chosen only where none is permitted.
pub best_allowed_media-none :
    (media : List Media) (policy : ResolutionPolicy) (screen : Option (ℤ × ℤ))
    → best_allowed_media media policy screen ≡ none
    → All (λ m. media_allowed m policy ≡ false) media
unfolding best_allowed_media
best_allowed_media-none media policy screen h =
    filter-nil _ media (empty (allowed_media media policy) h)
  where
    empty :
        (ms : List Media)
        → (if is_empty ms then none else min_by (closer screen) ms) ≡ none
        → ms ≡ []
    empty [] e = refl
    empty (m ∷ ms) e = min_by-none (closer screen) (m ∷ ms) e
