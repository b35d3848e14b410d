-- ===== src/CacheKeys/Selections.antt =====
-- Which requests for hubs share a cached payload: a selection of libraries is a set of ids.
use mathlib.Core.List.{Permᴰ}
use replex.Prelude.{
  ℕ, ◌≡◌, ◌≢◌, refl, sym, ap, ◌∙◌, ◌⊎◌, inl, inr, ◌==◌, true, false, not, Option, some, List, [],
  ◌∷◌, ◌++◌, All, arith, any, filter, map, is_empty, map_or, or_else,
}
use replex.Prelude.Sorted.{sort, insert_sorted, leb_text, sort_texts-Permᴰ}
use replex.Prelude.Text.{Text, codes, split, trim}
use replex.CacheKeys.{
  Pairs, join, canonical_ids, picked, selection_names, selection_parts, cache_key_for_request,
  canonical_fetch_path, canonical_fetch_path, to_ascii_lowercase,
}

-- A character that a text does not have.
abbrev pub NoChar : ℕ → Text → Type 0
NoChar c = All (λ d. d ≢ c)

abbrev NoComma : Text → Type 0
NoComma = NoChar b','

-- The id of a library in a selection: not empty, without a comma and without space around it.
abbrev pub IsId : Text → Type 0
IsId s = NoComma s × (trim s ≡ s) × (is_empty s ≡ false)

split-first : (c : ℕ) (s t : Text) → NoChar c s → split c (s ++ c ∷ t) ≡ s ∷ split c t
unfolding split
split-first c [] t h = ground (arith)
split-first c (d ∷ s) t h =
    let other : (d == c) ≡ false = ground arith in rw (other, split-first c s t h.1) refl

split-alone : (c : ℕ) (s : Text) → NoChar c s → split c s ≡ s ∷ []
unfolding split
split-alone c [] h = refl
split-alone c (d ∷ s) h =
    let other : (d == c) ≡ false = ground arith in rw (other, split-alone c s h.1) refl

-- Splitting takes apart what was joined.
pub split-join :
    (c : ℕ) (s : Text) (ps : List Text)
    → All (NoChar c) (s ∷ ps)
    → split c (join (c ∷ []) (s ∷ ps)) ≡ s ∷ ps
unfolding join
split-join c s [] h = split-alone c s h.0
split-join c s (t ∷ ps) h =
    split-first c s (join (c ∷ []) (t ∷ ps)) h.0 ∙ ap (λ l. s ∷ l) (split-join c t ps h.1)

All-NoComma : (ids : List Text) → All IsId ids → All NoComma ids
All-NoComma [] h = tt
All-NoComma (s ∷ ids) h = (h.0.0, All-NoComma ids h.1)

trimmed_ids : (ids : List Text) → All IsId ids → filter (λ s. not (is_empty s)) (map trim ids) ≡ ids
unfolding filter
trimmed_ids [] h = refl
trimmed_ids (s ∷ ids) h = rw (h.0.1, h.0.2) (ap (λ l. s ∷ l) (trimmed_ids ids h.1))

no_comma : (s : Text) → NoComma s → any (λ c. c == b',') s ≡ false
unfolding any
no_comma [] h = refl
no_comma (c ∷ s) h = ground (arith, no_comma s h.1)

some_comma : (s t : Text) → any (λ c. c == b',') (s ++ b',' ∷ t) ≡ true
unfolding any
some_comma [] t = refl
some_comma (c ∷ s) t = ground (arith, some_comma s t)

canonical_one : (v : Text) → any (λ c. c == b',') v ≡ false → canonical_ids v ≡ v
unfolding canonical_ids
canonical_one v h = rw h refl

canonical_many :
    (v : Text) (ids : List Text)
    → any (λ c. c == b',') v ≡ true
    → split b',' v ≡ ids
    → canonical_ids v
      ≡ join (codes ",") (sort leb_text (filter (λ s. not (is_empty s)) (map trim ids)))
unfolding canonical_ids
canonical_many v ids h e = rw (h, e) refl

-- A selection is put in order.
pub canonical_ids-join :
    (ids : List Text)
    → All IsId ids
    → canonical_ids (join (codes ",") ids) ≡ join (codes ",") (sort leb_text ids)
unfolding join
canonical_ids-join [] h = unfold canonical_ids sort any in refl
canonical_ids-join (s ∷ []) h = unfold sort insert_sorted in canonical_one s (no_comma s h.0.0)
canonical_ids-join (s ∷ t ∷ ids) h =
    canonical_many (join (codes ",") (s ∷ t ∷ ids)) (s ∷ t ∷ ids)
      (some_comma s (join (codes ",") (t ∷ ids)))
      (split-join b',' s (t ∷ ids) (All-NoComma (s ∷ t ∷ ids) h))
    ∙ ap (λ l. join (codes ",") (sort leb_text l)) (trimmed_ids (s ∷ t ∷ ids) h)

-- Two values of a parameter: the same, or the ids of one set of libraries, each in an order of its
-- own.
abbrev pub SameSelection : Option Text → Option Text → Type 0
SameSelection o p =
    (o ≡ p)
    ⊎ ((ids : List Text) × (jds : List Text) × All IsId ids
        × All IsId jds
        × Permᴰ ids jds
        × (o ≡ some (join (codes ",") ids))
        × (p ≡ some (join (codes ",") jds)))

-- What a request asks for, by a name or that in lower case.
abbrev pub asked : (Text → Option Text) → Text → Option Text
asked get name = or_else (get name) (get (to_ascii_lowercase name))

canonical_ids-Permᴰ :
    (ids jds : List Text)
    → All IsId ids
    → All IsId jds
    → Permᴰ ids jds
    → canonical_ids (join (codes ",") ids) ≡ canonical_ids (join (codes ",") jds)
canonical_ids-Permᴰ ids jds h k p =
    canonical_ids-join ids h
    ∙ ap (join (codes ",")) (sort_texts-Permᴰ p)
    ∙ sym (canonical_ids-join jds k)

module _ (get other : Text → Option Text) where
  abbrev part : Text → Pairs → Option Text → Pairs
  part name rest o = map_or o rest (λ v. (name, canonical_ids v) ∷ rest)

  part-same :
      (name : Text) (rest : Pairs) (o p : Option Text)
      → SameSelection o p
      → part name rest o ≡ part name rest p
  part-same name rest o p (inl e) = ap (part name rest) e
  part-same name rest o p (inr (ids, jds, h, k, perm, e, f)) =
      rw (e, f) (ap (λ v. (name, v) ∷ rest) (canonical_ids-Permᴰ ids jds h k perm))

  picked-same :
      (names : List Text)
      → All (λ name. SameSelection (asked get name) (asked other name)) names
      → picked get names ≡ picked other names
  unfolding picked
  picked-same [] h = refl
  picked-same (name ∷ names) h =
      part-same name (picked get names) (asked get name) (asked other name) h.0
      ∙ ap (λ rest. part name rest (asked other name)) (picked-same names h.1)

  selection_parts-same :
      All (λ name. SameSelection (asked get name) (asked other name)) selection_names
      → selection_parts get ≡ selection_parts other
  unfolding selection_parts
  selection_parts-same h = ap (sort (λ a b. leb_text a.0 b.0)) (picked-same selection_names h)

  -- Two requests for one path have one key before the account is put in, and ask Plex by one path, if
  -- each parameter of the selection and of the paging has in both the same value or names the same
  -- libraries, in whatever order and by whichever spelling of its name.
  pub cache_key_for_request-Permᴰ :
      (path key_path : Text)
      → All (λ name. SameSelection (asked get name) (asked other name)) selection_names
      → (cache_key_for_request path get ≡ cache_key_for_request path other)
        × (canonical_fetch_path get key_path ≡ canonical_fetch_path other key_path)
  unfolding cache_key_for_request canonical_fetch_path
  cache_key_for_request-Permᴰ path key_path h =
      let e = selection_parts-same h in (rw e refl, rw e refl)
