-- ===== src/Metadata/Filter/Laws.antt =====
-- What filtering and clearing leave of a node.
use replex.Prelude.{
  ◌≡◌, refl, sym, ap, ◌++◌, ◌⊎◌, inl, inr, Bool, true, false, List, [], ◌∷◌, All, All-append,
  All-filter, Memᴰ, filter, arith, length, length-append, is_empty, Bool-cases,
}
use replex.Prelude.Text.{Text, codes, text_eq}
use replex.Media.{Media}
use replex.Policy.Entries.{ResolutionPolicy}
use replex.Policy.Classify.{media_allowed}
use replex.Metadata.{MetaData, node, MetaList, nil, cons, item_of}
use replex.Metadata.Forest.{retain, all_media, media_below, descendants, nodes, filter-append}
use replex.Metadata.Filter.{
  has_nested, originally_playable, survives, filter_media_recursive, filter_each,
  clear_media_recursive, clear_each, count_media, count_each,
}

-- A child that is dropped holds no version.
dropped_empty : (c : MetaData) → survives c ≡ false → all_media c ≡ []
unfolding survives all_media
dropped_empty (node i nil nil nil) h = ground arith
dropped_empty (node i (cons c cs) d v) h = absurd (ground arith)
dropped_empty (node i nil (cons c cs) v) h = absurd (ground arith)
dropped_empty (node i nil nil (cons c cs)) h = absurd (ground arith)

media_below-retain : (cs : MetaList) → media_below (retain survives cs) ≡ media_below cs
unfolding retain media_below
media_below-retain nil = refl
media_below-retain (cons c cs) = elim (Bool-cases (survives c)) [
  | inl s ↦ rw s (ap (λ t. all_media c ++ t) (media_below-retain cs))
  | inr s ↦ rw (s, dropped_empty c s) (media_below-retain cs)
]

filter_none : (p : Media → Bool) → filter p [] ≡ []
unfolding filter
filter_none p = refl

mutual
  unfolding filter_media_recursive all_media

  filtered :
      (p : ResolutionPolicy) (x : MetaData)
      → all_media (filter_media_recursive p x) ≡ filter (λ m. media_allowed m p) (all_media x)
  filtered p (node i m d v) =
      simp
        (filter-append, media_below-retain, filtered_each p m, filtered_each p d, filtered_each p v)

  filtered_each :
      (p : ResolutionPolicy) (cs : MetaList)
      → media_below (filter_each p cs) ≡ filter (λ m. media_allowed m p) (media_below cs)
  filtered_each p nil = sym (filter_none (λ m. media_allowed m p))
  filtered_each p (cons c cs) = simp (filter-append, filtered p c, filtered_each p cs)

-- Filtering a node keeps, in order, exactly the permitted ones of all the versions in it: none that
-- is prohibited stays at any depth, and none that is permitted is lost.
pub all_media-filter_media_recursive :
    (p : ResolutionPolicy) (x : MetaData)
    → all_media (filter_media_recursive p x) ≡ filter (λ m. media_allowed m p) (all_media x)
all_media-filter_media_recursive p x = filtered p x

-- The kinds of nodes that can be played.
abbrev pub IsPlayable : Text → Type 0
IsPlayable kind =
    (kind ≡ codes "movie")
    ⊎ ((kind ≡ codes "episode") ⊎ ((kind ≡ codes "clip") ⊎ (kind ≡ codes "track")))

-- A node that is worth showing under a policy: it is none to play, or has a permitted version, or
-- something is nested in it.
abbrev pub IsWorth : ResolutionPolicy → MetaData → Type 0
IsWorth p c =
    (¬ IsPlayable (item_of c).kind
      ⊎ ((m : Media) × Memᴰ m (item_of c).media × (media_allowed m p ≡ true)))
    ⊎ ((d : MetaData) × Memᴰ d (descendants c))

playable : (kind : Text) → IsPlayable kind → originally_playable kind ≡ true
unfolding originally_playable text_eq
playable kind (inl e) = rw e refl
playable kind (inr (inl e)) = rw e refl
playable kind (inr (inr (inl e))) = rw e refl
playable kind (inr (inr (inr e))) = rw e refl

-- All the versions of a node are permitted.
abbrev AllPermitted : ResolutionPolicy → MetaData → Type 0
AllPermitted p c = All (λ m. media_allowed m p ≡ true) (item_of c).media

first_of : (xs : List MetaData) → is_empty xs ≡ false → (x : MetaData) × Memᴰ x xs
first_of [] h = absurd (ground arith)
first_of (x ∷ xs) h = (x, Memᴰ.head refl)

some_descendant : (c : MetaData) → has_nested c ≡ true → is_empty (descendants c) ≡ false
unfolding descendants nodes
some_descendant (node i nil nil nil) h = absurd (ground arith)
some_descendant (node i (cons c cs) d v) h = refl
some_descendant (node i nil (cons c cs) v) h = refl
some_descendant (node i nil nil (cons c cs)) h = refl

first_permitted :
    (p : ResolutionPolicy) (ms : List Media)
    → All (λ m. media_allowed m p ≡ true) ms
    → is_empty ms ≡ false
    → (m : Media) × Memᴰ m ms × (media_allowed m p ≡ true)
first_permitted p [] a h = absurd (ground arith)
first_permitted p (m ∷ ms) a h = (m, Memᴰ.head refl, a.0)

survives-IsWorth :
    (p : ResolutionPolicy) (c : MetaData) → AllPermitted p c → survives c ≡ true → IsWorth p c
unfolding survives
survives-IsWorth p c permitted s = elim (Bool-cases (originally_playable (item_of c).kind)) [
  | inr other ↦ inl (inl (λ k. ground (arith, other, playable (item_of c).kind k)))
  | inl playable_kind ↦ elim (Bool-cases (is_empty (item_of c).media)) [
    | inr some_media ↦ inl (inr (first_permitted p (item_of c).media permitted some_media))
    | inl no_media ↦
        let nested : has_nested c ≡ true = ground (arith, playable_kind, no_media) in
        inr (first_of (descendants c) (some_descendant c nested))
  ]
]

abbrev AllWorth : ResolutionPolicy → List MetaData → Type 0
AllWorth p = All (IsWorth p)

-- Every version of `cs` is permitted and every node below them worth showing; those of `cs`
-- themselves need not be.
abbrev Below : ResolutionPolicy → MetaList → Type 0
Below p nil = Unit
Below p (cons c cs) = (AllPermitted p c × AllWorth p (descendants c)) × Below p cs

AllWorth-retained :
    (p : ResolutionPolicy) (cs : MetaList) → Below p cs → AllWorth p (nodes (retain survives cs))
unfolding retain nodes
AllWorth-retained p nil h = tt
AllWorth-retained p (cons c cs) h = elim (Bool-cases (survives c)) [
  | inl s ↦ rw s (
    survives-IsWorth p c h.0.0 s,
    All-append (IsWorth p) (descendants c) (nodes (retain survives cs)) (h.0.1)
        (AllWorth-retained p cs h.1),
  )
  | inr s ↦ rw s (AllWorth-retained p cs h.1)
]

own_permitted : (p : ResolutionPolicy) (x : MetaData) → AllPermitted p (filter_media_recursive p x)
unfolding filter_media_recursive
own_permitted p (node i m d v) = All-filter (λ x. media_allowed x p) i.media

mutual
  unfolding filter_media_recursive descendants

  filtered_worth :
      (p : ResolutionPolicy) (x : MetaData) → AllWorth p (descendants (filter_media_recursive p x))
  filtered_worth p (node i m d v) =
      All-append (IsWorth p) (nodes (retain survives (filter_each p m))) _
        (AllWorth-retained p (filter_each p m) (each_worth p m))
        (All-append (IsWorth p) (nodes (retain survives (filter_each p d))) _
          (AllWorth-retained p (filter_each p d) (each_worth p d))
          (AllWorth-retained p (filter_each p v) (each_worth p v)))

  each_worth : (p : ResolutionPolicy) (cs : MetaList) → Below p (filter_each p cs)
  each_worth p nil = tt
  each_worth p (cons c cs) = ((own_permitted p c, filtered_worth p c), each_worth p cs)

-- Below a filtered node, at any depth, every movie, episode, clip or track has a version that the
-- policy permits, or has a node nested in it.
pub descendants-filter_media_recursive :
    (p : ResolutionPolicy) (x : MetaData)
    → All (IsWorth p) (descendants (filter_media_recursive p x))
descendants-filter_media_recursive p x = filtered_worth p x

mutual
  unfolding clear_media_recursive all_media

  cleared : (x : MetaData) → all_media (clear_media_recursive x) ≡ []
  cleared (node i m d v) = simp (cleared_each m, cleared_each d, cleared_each v)

  cleared_each : (cs : MetaList) → media_below (clear_each cs) ≡ []
  cleared_each nil = refl
  cleared_each (cons c cs) = simp (cleared c, cleared_each cs)

-- Failing closed leaves no version at any depth.
pub all_media-clear_media_recursive : (x : MetaData) → all_media (clear_media_recursive x) ≡ []
all_media-clear_media_recursive x = cleared x

mutual
  unfolding count_media all_media

  counted : (x : MetaData) → count_media x ≡ length (all_media x)
  counted (node i m d v) = omega (
    arith,
    length-append i.media (media_below m ++ (media_below d ++ media_below v)),
    length-append (media_below m) (media_below d ++ media_below v),
    length-append (media_below d) (media_below v),
    counted_each m,
    counted_each d,
    counted_each v,
  )

  counted_each : (cs : MetaList) → count_each cs ≡ length (media_below cs)
  counted_each nil = refl
  counted_each (cons c cs) =
      omega (arith, length-append (all_media c) (media_below cs), counted c, counted_each cs)

-- The count that is logged is the number of versions in the node.
pub count_media-length : (x : MetaData) → count_media x ≡ length (all_media x)
count_media-length x = counted x
