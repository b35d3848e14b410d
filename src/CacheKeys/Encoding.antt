-- ===== src/CacheKeys/Encoding.antt =====
-- How the parameters of a request for hubs are written into its key.
use mathlib.Core.List.{Permᴰ, Memᴰ}
use mathlib.Core.List.Memᴰ
use mathlib.Core.List.Permᴰ
use replex.Prelude.{
  ℕ, ◌≡◌, ◌≢◌, refl, sym, ap, ◌∙◌, inl, inr, ◌==◌, false, Option, some, List, [], ◌∷◌, ◌++◌, All,
  All-append, All-mem, any, arith, find, map, is_empty, if◌then◌else◌, Option-cases,
}
use replex.Prelude.Sorted.{sort, leb_text, Permᴰ-sort}
use replex.Prelude.Text.{Text, codes, to_lowercase, text_eq, lower, ascii_lower, split}
use replex.CacheKeys.{
  Pairs, join, canonical_ids, picked, selection_names, selection_parts, cache_key_for_request,
}
use replex.CacheKeys.Selections.{NoChar, asked, split-join}

-- The first such character splits a text in one way.
first_mark :
    (c : ℕ) (s t p q : Text) → NoChar c s → NoChar c t → s ++ c ∷ p ≡ t ++ c ∷ q → (s ≡ t) × (p ≡ q)
first_mark c [] [] p q h k e = (refl, ground arith)
first_mark c [] (d ∷ t) p q h k e = absurd (k.0 (ground arith))
first_mark c (d ∷ s) [] p q h k e = absurd (h.0 (ground arith))
first_mark c (a ∷ s) (b ∷ t) p q h k e =
    let r = first_mark c s t p q h.1 k.1 (ground arith) in (ground (arith, r.0), r.1)

no_mark : (c : ℕ) (s t p : Text) → NoChar c s → s ≢ t ++ c ∷ p
no_mark c [] [] p h e = cc
no_mark c [] (d ∷ t) p h e = cc
no_mark c (a ∷ s) [] p h e = absurd (h.0 (ground arith))
no_mark c (a ∷ s) (b ∷ t) p h e = no_mark c s t p h.1 (ground arith)

-- A pair of the key's query.
abbrev piece : Text × Text → Text
piece p = to_lowercase p.0 ++ b'=' ∷ p.1

-- One of the parameters that a key reads, with a value that has no `&`.
abbrev pub IsPart : Text × Text → Type 0
IsPart p = Memᴰ p.0 selection_names × NoChar b'&' p.1

no_char : (c : ℕ) (s : Text) → any (λ d. d == c) s ≡ false → NoChar c s
unfolding any
no_char c [] h = tt
no_char c (d ∷ s) h = ((λ e. ground (arith, h, e)), no_char c s (ground (arith, h)))

-- A parameter that can be told from its name in lower case, which has neither `=` nor `&`.
abbrev IsName : Text → Type 0
IsName name =
    (find (λ n. text_eq (to_lowercase n) (to_lowercase name)) selection_names ≡ some name)
    × NoChar b'=' (to_lowercase name)
    × NoChar b'&' (to_lowercase name)

name_of :
    (name : Text)
    → find (λ n. text_eq (to_lowercase n) (to_lowercase name)) selection_names ≡ some name
    → any (λ d. d == b'=') (to_lowercase name) ≡ false
    → any (λ d. d == b'&') (to_lowercase name) ≡ false
    → IsName name
name_of name h k l = (h, no_char b'=' (to_lowercase name) k, no_char b'&' (to_lowercase name) l)

selection_names-IsName : All IsName selection_names
unfolding find text_eq to_lowercase lower ascii_lower any
selection_names-IsName = (
  name_of (codes "contentDirectoryID") refl refl refl,
  (
    name_of (codes "pinnedContentDirectoryID") refl refl refl,
    (
      name_of (codes "X-Plex-Container-Start") refl refl refl,
      (name_of (codes "X-Plex-Container-Size") refl refl refl, tt),
    ),
  ),
)

piece-inj : (p r : Text × Text) → IsPart p → IsPart r → piece p ≡ piece r → p ≡ r
piece-inj (n, v) (m, w) hp hr e =
    let a = All-mem IsName n selection_names-IsName hp.0 in
    let b = All-mem IsName m selection_names-IsName hr.0 in
    let parts = first_mark b'=' (to_lowercase n) (to_lowercase m) v w a.1 b.1 e in
    let same : some n ≡ some m =
      sym a.0 ∙ ap (λ t. find (λ k. text_eq (to_lowercase k) t) selection_names) parts.0 ∙ b.0 in
    ground (arith, same, parts.1)

pieces-inj : (ps rs : Pairs) → All IsPart ps → All IsPart rs → map piece ps ≡ map piece rs → ps ≡ rs
pieces-inj [] [] h k e = refl
pieces-inj [] (r ∷ rs) h k e = cc
pieces-inj (p ∷ ps) [] h k e = cc
pieces-inj (p ∷ ps) (r ∷ rs) h k e =
    let one = piece-inj p r h.0 k.0 (ground arith) in
    let rest = pieces-inj ps rs h.1 k.1 (ground arith) in cc

NoChar-pieces : (ps : Pairs) → All IsPart ps → All (NoChar b'&') (map piece ps)
NoChar-pieces [] h = tt
NoChar-pieces ((n, v) ∷ ps) h =
    let name = All-mem IsName n selection_names-IsName h.0.0 in
    (
      All-append (λ d. d ≢ b'&') (to_lowercase n) (b'=' ∷ v) name.2 ((λ e. ground arith), h.0.1),
      NoChar-pieces ps h.1,
    )

-- The key of a path with some parts.
abbrev pub keyed : Text → Pairs → Text
keyed path ps = if is_empty ps then path else path ++ b'?' ∷ join (codes "&") (map piece ps)

pub keyed-inj :
    (path other : Text) (ps rs : Pairs)
    → NoChar b'?' path
    → NoChar b'?' other
    → All IsPart ps
    → All IsPart rs
    → keyed path ps ≡ keyed other rs
    → (path ≡ other) × (ps ≡ rs)
keyed-inj path other [] [] h k a b e = (e, refl)
keyed-inj path other [] (r ∷ rs) h k a b e = absurd (no_mark b'?' path other _ h e)
keyed-inj path other (p ∷ ps) [] h k a b e = absurd (no_mark b'?' other path _ k (sym e))
keyed-inj path other (p ∷ ps) (r ∷ rs) h k a b e =
    let halves = first_mark b'?' path other _ _ h k e in
    let pieces : map piece (p ∷ ps) ≡ map piece (r ∷ rs) =
      sym (split-join b'&' (piece p) (map piece ps) (NoChar-pieces (p ∷ ps) a))
      ∙ ap (split b'&') halves.1
      ∙ split-join b'&' (piece r) (map piece rs) (NoChar-pieces (r ∷ rs) b) in
    (halves.0, pieces-inj (p ∷ ps) (r ∷ rs) a b pieces)

pub cache_key-keyed :
    (path : Text) (get : Text → Option Text)
    → cache_key_for_request path get ≡ keyed path (selection_parts get)
unfolding cache_key_for_request
cache_key-keyed path get = refl

-- A place in a list is one in any order of the list.
pub Memᴰ-Permᴰ {ℓ} : {A : Type ℓ} {x : A} {xs ys : List A} → Permᴰ xs ys → Memᴰ x xs → Memᴰ x ys
Memᴰ-Permᴰ Permᴰ.nil m = m
Memᴰ-Permᴰ (Permᴰ.cons e d) (Memᴰ.head i) = Memᴰ.head (i ∙ e)
Memᴰ-Permᴰ (Permᴰ.cons e d) (Memᴰ.tail m) = Memᴰ.tail (Memᴰ-Permᴰ d m)
Memᴰ-Permᴰ (Permᴰ.swap e f) (Memᴰ.head i) = Memᴰ.tail (Memᴰ.head (i ∙ e))
Memᴰ-Permᴰ (Permᴰ.swap e f) (Memᴰ.tail (Memᴰ.head i)) = Memᴰ.head (i ∙ f)
Memᴰ-Permᴰ (Permᴰ.swap e f) (Memᴰ.tail (Memᴰ.tail m)) = Memᴰ.tail (Memᴰ.tail m)
Memᴰ-Permᴰ (Permᴰ.trans d c) m = Memᴰ-Permᴰ c (Memᴰ-Permᴰ d m)

pub All-of_mem {ℓ κ} :
    {A : Type ℓ} (P : A → Type κ) (xs : List A) → ((x : A) → Memᴰ x xs → P x) → All P xs
All-of_mem P [] h = tt
All-of_mem P (x ∷ xs) h = (h x (Memᴰ.head refl), All-of_mem P xs (λ y m. h y (Memᴰ.tail m)))

pub All-sort {κ} : (P : Text → Type κ) (ids : List Text) → All P ids → All P (sort leb_text ids)
All-sort P ids h =
    All-of_mem P (sort leb_text ids)
      (λ x m. All-mem P x h (Memᴰ-Permᴰ (Permᴰ.symm (Permᴰ-sort leb_text ids)) m))

-- What is picked of a request.
pub picked-mem :
    (get : Text → Option Text) (names : List Text) (name v : Text)
    → Memᴰ (name, v) (picked get names)
    → Memᴰ name names × (w : Text) × (asked get name ≡ some w) × (v ≡ canonical_ids w)
unfolding picked
picked-mem get [] name v m = elim m [ ]
picked-mem get (n ∷ names) name v m = elim (Option-cases (asked get n)) [
  | inl absent ↦
      let r = picked-mem get names name v (rw absent at m) in (Memᴰ.tail r.0, r.1, r.2, r.3)
  | inr (w, there) ↦
      let placed : Memᴰ (name, v) ((n, canonical_ids w) ∷ picked get names) = rw there at m in
      elim (Memᴰ.cases_cons placed) [
        | inl e ↦
            let same : name ≡ n = ap (λ p. p.0) e in
            (Memᴰ.head same, w, rw same there, ap (λ p. p.1) e)
        | inr later ↦ let r = picked-mem get names name v later in (Memᴰ.tail r.0, r.1, r.2, r.3)
      ]
]

pub mem-picked :
    (get : Text → Option Text) (names : List Text) (name w : Text)
    → Memᴰ name names
    → asked get name ≡ some w
    → Memᴰ (name, canonical_ids w) (picked get names)
unfolding picked
mem-picked get [] name w m there = elim m [ ]
mem-picked get (n ∷ names) name w m there = elim (Memᴰ.cases_cons m) [
  | inl e ↦ let here : asked get n ≡ some w = rw (← e) there in rw here (Memᴰ.head (rw e refl))
  | inr later ↦ elim (Option-cases (asked get n)) [
    | inl absent ↦ rw absent (mem-picked get names name w later there)
    | inr (u, first) ↦ rw first (Memᴰ.tail (mem-picked get names name w later there))
  ]
]
