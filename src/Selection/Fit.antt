-- ===== src/Selection/Fit.antt =====
-- The version that fits a screen best.
use replex.Prelude.{
  ℕ, true, false, suc, ◌+◌, ◌≡◌, sym, ap, ◌∙◌, inl, inr, Option, some, List, [], ◌∷◌, Memᴰ, arith,
  get_elem?, Option-cases,
}
use replex.Prelude.Int.{ℤ}
use replex.Prelude.Minimum.{IsOrder, IsFirstMin, min_by, min_by-IsFirstMin, IsFirstMin-mem}
use replex.Media.{Media}
use replex.Selection.{FitKey, key_less, fits_better, fit_key, area, enumerate, best_fit_index}

asym-key_less : (a b : FitKey) → key_less a b ≡ true → key_less b a ≡ false
asym-key_less a b h = ground arith

chain-key_less : (a b c : FitKey) → key_less a b ≡ true → key_less c b ≡ false → key_less a c ≡ true
chain-key_less a b c h k = ground arith

fits_better-IsOrder : (screen_density : ℕ) → IsOrder (fits_better screen_density)
fits_better-IsOrder screen_density = record {
  asym = λ a b h. asym-key_less (fit_key screen_density a.1) (fit_key screen_density b.1) h;
  chain = λ a b c h k.
      chain-key_less (fit_key screen_density a.1) (fit_key screen_density b.1)
        (fit_key screen_density c.1) h k;
}

get_elem?-enumerate :
    (media : List Media) (start : ℕ) (whole : ℕ → Option Media) (r : ℕ × Media)
    → ((i : ℕ) → get_elem? media i ≡ whole (start + i))
    → Memᴰ r (enumerate start media)
    → whole r.0 ≡ some r.1
unfolding enumerate
get_elem?-enumerate [] start whole r at m = elim m [ ]
get_elem?-enumerate (x ∷ media) start whole r at (Memᴰ.head e) =
    ap (λ t. whole t.0) e ∙ ap whole (omega arith) ∙ sym (at 0) ∙ ap (λ t. some t.1) (sym e)
get_elem?-enumerate (x ∷ media) start whole r at (Memᴰ.tail m) =
    get_elem?-enumerate media (suc start) whole r (λ i. at (suc i) ∙ ap whole (omega arith)) m

-- An index that is returned is that of a version of the item: the first of those with the least
-- key, which is the distance of the density from the screen's, with unknown densities last and the
-- higher density first where two are as far.
pub best_fit_index-IsFirstMin :
    (media : List Media) (screen : ℤ × ℤ) (i : ℕ)
    → best_fit_index media screen ≡ some i
    → (d : ℕ) × (m : Media) × (area screen.0 screen.1 ≡ some d)
      × (get_elem? media i ≡ some m)
      × IsFirstMin (fits_better d) (enumerate 0 media) (i, m)
unfolding best_fit_index
best_fit_index-IsFirstMin media screen i h = elim (Option-cases (area screen.0 screen.1)) [
  | inl no_screen ↦ absurd (ground (arith, no_screen))
  | inr (d, screen_density) ↦ elim (Option-cases (min_by (fits_better d) (enumerate 0 media))) [
    | inl no_version ↦ absurd (ground (arith, screen_density, no_version))
    | inr ((j, m), least) ↦
        let same : j ≡ i = ground (arith, screen_density, least) in
        let first =
          min_by-IsFirstMin (fits_better-IsOrder d) (enumerate 0 media) (i, m)
            (least ∙ ap (λ n. some (n, m)) same) in
        (
          d,
          m,
          screen_density,
          get_elem?-enumerate media 0 (get_elem? media) (i, m)
              (λ n. ap (get_elem? media) (omega arith))
              (IsFirstMin-mem (enumerate 0 media) (i, m) first),
          first,
        )
  ]
]
