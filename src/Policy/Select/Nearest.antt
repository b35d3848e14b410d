-- ===== src/Policy/Select/Nearest.antt =====
-- Which of the permitted versions `best_allowed_media` takes, in pixels.
use native.Mathlib.Nat.{suc-mul}
use replex.Prelude.{
  ◌⊎◌, inl, inr, sym, ◌∙◌, Bool-cases, ℕ, zero, suc, ◌+◌, ◌-◌, ◌*◌, ◌^◌, ◌≤◌, ◌<◌, ◌≡◌, refl, ◌++◌,
  Bool, true, Option, none, some, List, [], ◌∷◌, Memᴰ, All, arith, filter, ltb, unwrap_or,
}
use replex.Prelude.Int.{
  ℤ, pos, pos_part, mul_i64, sub_i64, abs_i64, neg_i64, wrap_i64, ltb_ℤ, ◌*ℤ◌, ◌-ℤ◌,
}
use replex.Prelude.Minimum.{IsFirstMin}
use replex.Media.{Media}
use replex.Policy.Entries.{ResolutionPolicy}
use replex.Policy.Classify.{media_allowed}
use replex.Policy.Select.{
  allowed_media, density, key, closer, best_allowed_media, best_allowed_media-IsFirstMin,
}

mul_bound : (x y : ℕ) → y < 2 ^ 31 → x * y ≤ x * 2 ^ 31
mul_bound zero y h = omega arith
mul_bound (suc x) y h = omega (arith, mul_bound x y h, suc-mul x y)

product_small : (x y : ℕ) → x < 2 ^ 31 → y < 2 ^ 31 → x * y ≤ 2 ^ 62
product_small x y h k = omega (arith, mul_bound x y k)

mul-pos : (x y : ℕ) → x < 2 ^ 31 → y < 2 ^ 31 → mul_i64 (pos x) (pos y) ≡ pos (x * y)
unfolding mul_i64 ◌*ℤ◌ wrap_i64
mul-pos x y h k = ground (arith, product_small x y h k)

sub-pos_abs :
    (a b : ℕ)
    → a ≤ 2 ^ 62
    → b ≤ 2 ^ 62
    → abs_i64 (sub_i64 (pos a) (pos b)) ≡ pos ((a - b) + (b - a))
unfolding sub_i64 ◌-ℤ◌ wrap_i64 abs_i64
sub-pos_abs a b h k = ground arith

neg-less : (a b : ℕ) → a ≤ 2 ^ 62 → b ≤ 2 ^ 62 → ltb_ℤ (neg_i64 (pos a)) (neg_i64 (pos b)) ≡ ltb b a
unfolding neg_i64 sub_i64 ◌-ℤ◌ wrap_i64
neg-less a b h k = ground arith

-- A side of a frame, 0 where it is not known.
abbrev side : Option ℤ → ℕ
side o = pos_part (unwrap_or o (pos 0))

-- What a side can be: not known, or a number of pixels below 2 ^ 31.
abbrev IsSide : Option ℤ → Type 0
IsSide o = (o ≡ none) ⊎ ((n : ℕ) × (o ≡ some (pos n)) × (n < 2 ^ 31))

abbrev pub IsFramed : Media → Type 0
IsFramed m = IsSide m.width × IsSide m.height

-- The number of pixels of a version.
abbrev pub pixels : Media → ℕ
pixels m = side m.width * side m.height

-- The screen's sides, which must be below 2 ^ 31 too.
abbrev pub IsScreen : Option (ℤ × ℤ) → Type 0
IsScreen none = Unit
IsScreen (some (w, h)) = IsSide (some w) × IsSide (some h)

abbrev distance : ℕ → ℕ → ℕ
distance a b = (a - b) + (b - a)

-- Which of two versions suits the client better: without a screen the one with more pixels, and with
-- one that whose number of pixels is closer to the screen's, be it above or below.
abbrev pub suits_better : Option (ℤ × ℤ) → Media → Media → Bool
suits_better none a b = ltb (pixels b) (pixels a)
suits_better (some (w, h)) a b =
    let screen = pos_part w * pos_part h in
    ltb (distance (pixels a) screen) (distance (pixels b) screen)

side-eq : (o : Option ℤ) → IsSide o → (unwrap_or o (pos 0) ≡ pos (side o)) × (side o < 2 ^ 31)
side-eq o (inl e) = rw e (refl, omega arith)
side-eq o (inr (n, e, h)) = rw e (refl, h)

density-pixels : (m : Media) → IsFramed m → (density m ≡ pos (pixels m)) × (pixels m ≤ 2 ^ 62)
unfolding density
density-pixels m (w, h) =
    let a = side-eq m.width w in
    let b = side-eq m.height h in
    (
      rw (a.0, b.0) (mul-pos (side m.width) (side m.height) a.1 b.1),
      product_small (side m.width) (side m.height) a.1 b.1,
    )

closer-suits_better :
    (screen : Option (ℤ × ℤ)) (a b : Media)
    → IsScreen screen
    → IsFramed a
    → IsFramed b
    → closer screen a b ≡ suits_better screen a b
unfolding key
closer-suits_better none a b s fa fb =
    let p = density-pixels a fa in
    let q = density-pixels b fb in rw (p.0, q.0) (neg-less (pixels a) (pixels b) p.1 q.1)
closer-suits_better (some (w, h)) a b (sw, sh) fa fb =
    let p = density-pixels a fa in
    let q = density-pixels b fb in
    let x = side-eq (some w) sw in
    let y = side-eq (some h) sh in
    let d : mul_i64 w h ≡ pos (pos_part w * pos_part h) =
      rw (x.0, y.0) (mul-pos (pos_part w) (pos_part h) x.1 y.1) in
    let small = product_small (pos_part w) (pos_part h) x.1 y.1 in
    rw
      (
        d,
        p.0,
        q.0,
        sub-pos_abs (pixels a) (pos_part w * pos_part h) p.1 small,
        sub-pos_abs (pixels b) (pos_part w * pos_part h) q.1 small,
      )
      (ground arith)

-- A least element stays one for a test that agrees on the elements.
IsFirstMin-agree :
    (less other : Media → Media → Bool) (ms : List Media) (r : Media)
    → ((a b : Media) → IsFramed a → IsFramed b → less a b ≡ other a b)
    → All IsFramed ms
    → IsFirstMin less ms r
    → IsFirstMin other ms r
IsFirstMin-agree less other ms r agree framed least =
    let parts : All IsFramed (least.before ++ r ∷ least.after) = rw (← least.splits) framed in
    let halves = All-split least.before (r ∷ least.after) parts in
    record {
      before = least.before;
      after = least.after;
      splits = least.splits;
      earlier =
          map_All least.before halves.0 least.earlier (λ z fz h. sym (agree r z halves.1.0 fz) ∙ h);
      later =
          map_All least.after halves.1.1 least.later (λ z fz h. sym (agree z r fz halves.1.0) ∙ h);
    }
  where
    All-split : (xs ys : List Media) → All IsFramed (xs ++ ys) → All IsFramed xs × All IsFramed ys
    All-split [] ys h = (tt, h)
    All-split (x ∷ xs) ys h = let t = All-split xs ys h.1 in ((h.0, t.0), t.1)

    map_All :
        {P Q : Media → Type 0} (xs : List Media)
        → All IsFramed xs
        → All P xs
        → ((z : Media) → IsFramed z → P z → Q z)
        → All Q xs
    map_All [] f h go = tt
    map_All (x ∷ xs) f h go = (go x f.0 h.0, map_All xs f.1 h.1 go)

All-of_filter : (p : Media → Bool) (ms : List Media) → All IsFramed ms → All IsFramed (filter p ms)
unfolding filter
All-of_filter p [] h = tt
All-of_filter p (m ∷ ms) h = elim (Bool-cases (p m)) [
  | inl kept ↦ rw kept (h.0, All-of_filter p ms h.1)
  | inr dropped ↦ rw dropped (All-of_filter p ms h.1)
]

-- Where the sides of the versions, where known, and of the screen, if there is one, are numbers below
-- 2 ^ 31: the version that is chosen is one of the item's, the policy permits it, no other permitted
-- version suits better, and each permitted one before it suits less. With a screen a version suits
-- better whose number of pixels is closer to the screen's, be it above or below, and without one a
-- version with more pixels.
pub best_allowed_media-SuitsBest :
    (media : List Media) (policy : ResolutionPolicy) (screen : Option (ℤ × ℤ)) (best : Media)
    → All IsFramed media
    → IsScreen screen
    → best_allowed_media media policy screen ≡ some best
    → Memᴰ best media
      × (media_allowed best policy ≡ true)
      × IsFirstMin (suits_better screen) (filter (λ m. media_allowed m policy) media) best
unfolding allowed_media
best_allowed_media-SuitsBest media policy screen best framed sized h =
    let r = best_allowed_media-IsFirstMin media policy screen best h in
    (
      r.0,
      r.1,
      IsFirstMin-agree (closer screen) (suits_better screen) (allowed_media media policy) best
          (λ a b fa fb. closer-suits_better screen a b sized fa fb)
          (All-of_filter (λ m. media_allowed m policy) media framed) r.2,
    )
