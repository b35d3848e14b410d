-- ===== src/Identity/Xml/Fuel.antt =====
-- The loops over a text end: each turn goes on with a shorter one.
use replex.Prelude.{
  ℕ, zero, suc, ◌<◌, ◌≤◌, ◌≡◌, refl, sym, ◌∙◌, ap, inl, inr, some, List, [], ◌∷◌, ◌==◌, arith,
  length, map_or, Option-cases, Bool-cases,
}
use replex.Prelude.Text.{Text, codes, trim, trim_start, strip_prefix, is_whitespace}
use replex.Identity.Xml.{cut_at, cut_on, pieces, quoted, attrs}

cut_at-shorter :
    (c : ℕ) (s before rest : Text) → cut_at c s ≡ some (before, rest) → length rest < length s
unfolding cut_at
cut_at-shorter c [] before rest h = cc
cut_at-shorter c (d ∷ s) before rest h = elim (Bool-cases (d == c)) [
  | inl here ↦ let e : s ≡ rest = ground (arith, here) in rw (← e) (omega arith)
  | inr there ↦ elim (Option-cases (cut_at c s)) [
    | inl nowhere ↦ absurd (ground (arith, there, nowhere))
    | inr ((a, b), found) ↦
        let e : b ≡ rest = ground (arith, there, found) in
        let shorter = cut_at-shorter c s a b found in rw (← e) (omega arith)
  ]
]

trim_start-shorter : (s : Text) → length (trim_start s) ≤ length s
unfolding trim_start
trim_start-shorter [] = omega arith
trim_start-shorter (c ∷ s) =
    let rest = trim_start-shorter s in
    elim (Bool-cases (is_whitespace c)) [
      | inl blank ↦ rw blank (omega arith)
      | inr dark ↦ rw dark (omega arith)
    ]

strip_prefix-shorter : (p s rest : Text) → strip_prefix p s ≡ some rest → length rest ≤ length s
unfolding strip_prefix
strip_prefix-shorter [] s rest h = let e : s ≡ rest = ground arith in rw (← e) (omega arith)
strip_prefix-shorter (c ∷ p) [] rest h = cc
strip_prefix-shorter (c ∷ p) (d ∷ s) rest h = elim (Bool-cases (c == d)) [
  | inr other ↦ absurd (ground (arith, other))
  | inl same ↦ let shorter = strip_prefix-shorter p s rest (ground (arith, same)) in omega arith
]

quoted-shorter :
    (after value more : Text) → quoted after ≡ some (value, more) → length more ≤ length after
unfolding quoted
quoted-shorter after value more h =
    elim (Option-cases (strip_prefix (codes "\"") (trim_start after))) [
      | inl bare ↦ absurd (ground (arith, bare))
      | inr (v, open_quote) ↦
          let a = trim_start-shorter after in
          let b = strip_prefix-shorter (codes "\"") (trim_start after) v open_quote in
          let c = cut_at-shorter b'"' v value more (ground (arith, open_quote)) in omega arith
    ]

attrs_nil : (n : ℕ) (m : List (Text × Text)) → attrs n [] m ≡ m
unfolding attrs cut_at
attrs_nil zero m = refl
attrs_nil (suc n) m = refl

-- Any two numbers of turns from the length of the text on give the loop over the attributes the same
-- result.
pub attrs_enough :
    (n k : ℕ) (s : Text) (m : List (Text × Text))
    → length s ≤ n
    → length s ≤ k
    → attrs n s m ≡ attrs k s m
unfolding attrs
attrs_enough n k [] m a b = attrs_nil n m ∙ sym (attrs_nil k m)
attrs_enough zero k (c ∷ s) m a b = absurd (omega arith)
attrs_enough (suc n) zero (c ∷ s) m a b = absurd (omega arith)
attrs_enough (suc n) (suc k) (c ∷ s) m a b = elim (Option-cases (cut_at b'=' (c ∷ s))) [
  | inl nowhere ↦ rw (nowhere, attrs) refl
  | inr ((key, after), found) ↦ elim (Option-cases (quoted after)) [
    | inl bare ↦ rw (found, attrs, bare) refl
    | inr ((value, more), read) ↦
        let x = cut_at-shorter b'=' (c ∷ s) key after found in
        let y = quoted-shorter after value more read in
        let z = trim_start-shorter more in
        rw (found, attrs, read)
          (attrs_enough n k (trim_start more) ((trim key, value) ∷ m) (omega arith) (omega arith))
  ]
]

strip_prefix-strictly :
    (c : ℕ) (p s rest : Text) → strip_prefix (c ∷ p) s ≡ some rest → length rest < length s
unfolding strip_prefix
strip_prefix-strictly c p [] rest h = cc
strip_prefix-strictly c p (d ∷ s) rest h = elim (Bool-cases (c == d)) [
  | inr other ↦ absurd (ground (arith, other))
  | inl same ↦ let shorter = strip_prefix-shorter p s rest (ground (arith, same)) in omega arith
]

cut_on-shorter :
    (c : ℕ) (t s before rest : Text)
    → cut_on (c ∷ t) s ≡ some (before, rest)
    → length rest < length s
unfolding cut_on
cut_on-shorter c t [] before rest h = cc
cut_on-shorter c t (d ∷ s) before rest h = elim (Option-cases (strip_prefix (c ∷ t) (d ∷ s))) [
  | inr (r, here) ↦
      let e : r ≡ rest = ground (arith, here) in rw (← e) (strip_prefix-strictly c t (d ∷ s) r here)
  | inl there ↦ elim (Option-cases (cut_on (c ∷ t) s)) [
    | inl nowhere ↦ absurd (ground (arith, there, nowhere))
    | inr ((a, b), found) ↦
        let e : b ≡ rest = ground (arith, there, found) in
        let shorter = cut_on-shorter c t s a b found in rw (← e) (omega arith)
  ]
]

pieces_nil : (n : ℕ) (t : Text) → pieces n t [] ≡ []
unfolding pieces cut_on
pieces_nil zero t = refl
pieces_nil (suc n) t = refl

-- The same for the pieces of a text behind a mark that is not empty.
pub pieces_enough :
    (n k c : ℕ) (t s : Text) → length s ≤ n → length s ≤ k → pieces n (c ∷ t) s ≡ pieces k (c ∷ t) s
unfolding pieces
pieces_enough n k c t [] a b = pieces_nil n (c ∷ t) ∙ sym (pieces_nil k (c ∷ t))
pieces_enough zero k c t (d ∷ s) a b = absurd (omega arith)
pieces_enough (suc n) zero c t (d ∷ s) a b = absurd (omega arith)
pieces_enough (suc n) (suc k) c t (d ∷ s) a b = elim (Option-cases (cut_on (c ∷ t) (d ∷ s))) [
  | inl nowhere ↦ rw (nowhere, pieces) refl
  | inr ((before, rest), found) ↦
      let x = cut_on-shorter c t (d ∷ s) before rest found in
      rw (found, pieces)
        (ap (λ ps. map_or (cut_on (c ∷ t) rest) rest (λ r. r.0) ∷ ps)
          (pieces_enough n k c t rest (omega arith) (omega arith)))
]
