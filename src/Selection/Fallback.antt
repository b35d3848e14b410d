-- ===== src/Selection/Fallback.antt =====
-- The versions that may stand in for another one.
use replex.Prelude.{
  ℕ, suc, ◌+◌, ◌≤◌, ◌≡◌, sym, ap, ◌∙◌, ◌≢◌, inl, inr, Bool, true, false, Option, some, List, [],
  ◌∷◌, All, arith, map, filter, get_elem?, map_or, Bool-cases, ltb,
}
use replex.Prelude.Text.{Text, eq_ignore_ascii_case}
use replex.Media.{Media}
use replex.Policy.Entries.{ResolutionPolicy}
use replex.Policy.Classify.{media_allowed}
use replex.Selection.{enumerate, is_fallback, density_at, insert_by, sort_by, fallback_indexes}

-- The highest key first.
abbrev pub IsDescending : (ℕ → ℕ) → List ℕ → Type 0
IsDescending key [] = Unit
IsDescending key (i ∷ is) = All (λ j. key j ≤ key i) is × IsDescending key is

All-insert_by :
    (P : ℕ → Type 0) (key : ℕ → ℕ) (i : ℕ) (js : List ℕ)
    → P i
    → All P js
    → All P (insert_by key i js)
unfolding insert_by
All-insert_by P key i [] p h = (p, tt)
All-insert_by P key i (j ∷ js) p h = elim (Bool-cases (ltb (key i) (key j))) [
  | inl later ↦ rw later (h.0, All-insert_by P key i js p h.1)
  | inr here ↦ rw here (p, h)
]

All-sort_by : (P : ℕ → Type 0) (key : ℕ → ℕ) (is : List ℕ) → All P is → All P (sort_by key is)
unfolding sort_by
All-sort_by P key [] h = tt
All-sort_by P key (i ∷ is) h = All-insert_by P key i (sort_by key is) h.0 (All-sort_by P key is h.1)

All-le_trans :
    (key : ℕ → ℕ) (a b : ℕ) (js : List ℕ)
    → a ≤ b
    → All (λ j. key j ≤ a) js
    → All (λ j. key j ≤ b) js
All-le_trans key a b [] le h = tt
All-le_trans key a b (j ∷ js) le h = (omega (arith, h.0), All-le_trans key a b js le h.1)

insert_by-IsDescending :
    (key : ℕ → ℕ) (i : ℕ) (js : List ℕ)
    → IsDescending key js
    → IsDescending key (insert_by key i js)
unfolding insert_by
insert_by-IsDescending key i [] h = (tt, tt)
insert_by-IsDescending key i (j ∷ js) h = elim (Bool-cases (ltb (key i) (key j))) [
  | inl later ↦ rw later (
    All-insert_by (λ k. key k ≤ key j) key i js (ground arith) h.0,
    insert_by-IsDescending key i js h.1,
  )
  | inr here ↦
      let le : key j ≤ key i = ground arith in
      rw here ((le, All-le_trans key (key j) (key i) js le h.0), h)
]

sort_by-IsDescending : (key : ℕ → ℕ) (is : List ℕ) → IsDescending key (sort_by key is)
unfolding sort_by
sort_by-IsDescending key [] = tt
sort_by-IsDescending key (i ∷ is) =
    insert_by-IsDescending key i (sort_by key is) (sort_by-IsDescending key is)

-- What is claimed of a fallback: where it stands in the item, that it is not the selected version,
-- that its label is known and not the one to fall back from, and that the policy permits it.
abbrev pub IsCandidate : List Media → ℕ → Text → Option ResolutionPolicy → ℕ → Type 0
IsCandidate media selected_index fallback_resolution policy i =
    (m : Media) × (get_elem? media i ≡ some m)
    × (i ≢ selected_index)
    × (map_or m.video_resolution true (λ v. eq_ignore_ascii_case v fallback_resolution) ≡ false)
    × (map_or policy true (media_allowed m) ≡ true)

All-map : (P Q : ℕ → Type 0) → ((i : ℕ) → P i → Q i) → (is : List ℕ) → All P is → All Q is
All-map P Q f [] h = tt
All-map P Q f (i ∷ is) h = (f i h.0, All-map P Q f is h.1)

IsCandidate-is_fallback :
    (media : List Media) (selected_index : ℕ) (fallback_resolution : Text)
    (policy : Option ResolutionPolicy) (i : ℕ)
    → ((m : Media) × (get_elem? media i ≡ some m)
        × (is_fallback selected_index fallback_resolution policy (i, m) ≡ true))
    → IsCandidate media selected_index fallback_resolution policy i
unfolding is_fallback
IsCandidate-is_fallback media selected_index fallback_resolution policy i (m, there, ok) =
    (m, there, (λ e. ground arith), ground arith, ground arith)

All-enumerate :
    (p : ℕ × Media → Bool) (media : List Media) (start : ℕ) (whole : ℕ → Option Media)
    → ((i : ℕ) → get_elem? media i ≡ whole (start + i))
    → All
        (λ i. (m : Media) × (whole i ≡ some m) × (p (i, m) ≡ true))
        (map (λ c. c.0) (filter p (enumerate start media)))
unfolding enumerate filter
All-enumerate p [] start whole at = tt
All-enumerate p (m ∷ media) start whole at =
    let rest = All-enumerate p media (suc start) whole (λ i. at (suc i) ∙ ap whole (omega arith)) in
    let here : whole start ≡ some m = ap whole (omega arith) ∙ sym (at 0) in
    elim (Bool-cases (p (start, m))) [
      | inl taken ↦ rw taken ((m, here, taken), rest)
      | inr left ↦ rw left rest
    ]

-- Each fallback is a version of the item, at its original index; it is not the selected one, has
-- another label than the one to fall back from, and the policy permits it. They come in the order
-- of their densities, the highest first.
pub fallback_indexes-All :
    (media : List Media) (selected_index : ℕ) (fallback_resolution : Text)
    (policy : Option ResolutionPolicy)
    → All
        (IsCandidate media selected_index fallback_resolution policy)
        (fallback_indexes media selected_index fallback_resolution policy)
      × IsDescending
          (density_at media)
          (fallback_indexes media selected_index fallback_resolution policy)
unfolding fallback_indexes
fallback_indexes-All media selected_index fallback_resolution policy =
    let chosen =
      map (λ c. c.0)
        (filter (is_fallback selected_index fallback_resolution policy) (enumerate 0 media)) in
    (
      All-sort_by _ (density_at media) chosen (
          All-map _ _ (IsCandidate-is_fallback media selected_index fallback_resolution policy)
            chosen
            (All-enumerate (is_fallback selected_index fallback_resolution policy) media 0
              (get_elem? media) (λ i. ap (get_elem? media) (omega arith)))),
      sort_by-IsDescending (density_at media) chosen,
    )
