-- ===== src/Prelude/Sorted.antt =====
-- Sorting text and pairs of text, as `sort` does: by code points, the shorter one first.
use replex.Prelude.Tests.{ltb, ◌==◌, if◌then◌else◌, Bool-cases}
use mathlib.Core.Path.{◌≡◌, refl, sym, ap, ◌∙◌}
use mathlib.Core.Logic.{inl, inr}
use mathlib.Core.Bool.{Bool, true, false, ◌&&◌, ◌||◌}
use mathlib.Core.List.{List, [], ◌∷◌}
use mathlib.Core.List.{Permᴰ}
use mathlib.Core.List.Permᴰ
use native.Mathlib.Omega.{arith}
use replex.Prelude.Text.{Text, text_eq, text_eq_iff}

-- Sorting by a total order.
module _ {ℓ} {A : Type ℓ} (le : A → A → Bool) where
  unfoldable pub insert_sorted : A → List A → List A
  insert_sorted a [] = a ∷ []
  insert_sorted a (b ∷ bs) =
      let rest = insert_sorted a bs in if le a b then a ∷ b ∷ bs else b ∷ rest

  unfoldable pub sort : List A → List A
  unfolding insert_sorted
  sort [] = []
  sort (a ∷ bs) = insert_sorted a (sort bs)

  Permᴰ-insert_sorted : (a : A) (bs : List A) → Permᴰ (a ∷ bs) (insert_sorted a bs)
  unfolding insert_sorted
  Permᴰ-insert_sorted a [] = Permᴰ.refl (a ∷ [])
  Permᴰ-insert_sorted a (b ∷ bs) = elim (Bool-cases (le a b)) [
    | inl here ↦ rw here (Permᴰ.refl (a ∷ b ∷ bs))
    | inr there ↦
        rw there (Permᴰ.trans (Permᴰ.swap refl refl) (Permᴰ.cons refl (Permᴰ-insert_sorted a bs)))
  ]

  pub Permᴰ-sort : (bs : List A) → Permᴰ bs (sort bs)
  unfolding sort
  Permᴰ-sort [] = Permᴰ.nil
  Permᴰ-sort (b ∷ bs) =
      Permᴰ.trans (Permᴰ.cons refl (Permᴰ-sort bs)) (Permᴰ-insert_sorted b (sort bs))

  module _ (total : (a b : A) → le a b ≡ false → le b a ≡ true)
      (antisym : (a b : A) → le a b ≡ true → le b a ≡ true → a ≡ b)
      (trans : (a b c : A) → le a b ≡ true → le b c ≡ true → le a c ≡ true) where
    insert_past :
        (a c : A) (cs : List A) → le a c ≡ false → insert_sorted a (c ∷ cs) ≡ c ∷ insert_sorted a cs
    unfolding insert_sorted
    insert_past a c cs h = rw h refl

    equal_comm :
        (a b : A) (cs : List A)
        → a ≡ b
        → insert_sorted a (insert_sorted b cs) ≡ insert_sorted b (insert_sorted a cs)
    equal_comm a b cs e =
        ap (λ x. insert_sorted x (insert_sorted b cs)) e
        ∙ ap (λ x. insert_sorted b (insert_sorted x cs)) (sym e)

    -- Which of two elements is inserted first makes no difference.
    pub insert_sorted_comm :
        (a b : A) (cs : List A)
        → insert_sorted a (insert_sorted b cs) ≡ insert_sorted b (insert_sorted a cs)
    unfolding insert_sorted
    insert_sorted_comm a b [] = elim (Bool-cases (le a b)) [
      | inl ab ↦ elim (Bool-cases (le b a)) [
        | inl ba ↦ equal_comm a b [] (antisym a b ab ba)
        | inr nba ↦ rw (ab, nba) refl
      ]
      | inr nab ↦ rw (nab, total a b nab) refl
    ]
    insert_sorted_comm a b (c ∷ cs) = elim (Bool-cases (le a c)) [
      | inl ac ↦ elim (Bool-cases (le b c)) [
        | inl bc ↦ elim (Bool-cases (le a b)) [
          | inl ab ↦ elim (Bool-cases (le b a)) [
            | inl ba ↦ equal_comm a b (c ∷ cs) (antisym a b ab ba)
            | inr nba ↦ simp (ac, bc, ab, nba)
          ]
          | inr nab ↦ simp (ac, bc, nab, total a b nab)
        ]
        | inr nbc ↦
            let nba : le b a ≡ false = elim (Bool-cases (le b a)) [
              | inl ba ↦ let bc = trans b a c ba ac in cc
              | inr no_ba ↦ no_ba
            ] in
            simp (ac, nbc, nba)
      ]
      | inr nac ↦ elim (Bool-cases (le b c)) [
        | inl bc ↦
            let nab : le a b ≡ false = elim (Bool-cases (le a b)) [
              | inl ab ↦ let ac = trans a b c ab bc in cc
              | inr no_ab ↦ no_ab
            ] in
            simp (bc, nac, nab)
        | inr nbc ↦
            ap (insert_sorted a) (insert_past b c cs nbc)
            ∙ insert_past a c (insert_sorted b cs) nac
            ∙ ap (λ r. c ∷ r) (insert_sorted_comm a b cs)
            ∙ sym (insert_past b c (insert_sorted a cs) nbc)
            ∙ ap (insert_sorted b) (sym (insert_past a c cs nac))
      ]
    ]

    -- The order of the elements makes no difference.
    pub sort-Permᴰ : {bs cs : List A} → Permᴰ bs cs → sort bs ≡ sort cs
    unfolding sort
    sort-Permᴰ Permᴰ.nil = refl
    sort-Permᴰ (Permᴰ.cons {b = b} {l₁ = l} e p) =
        ap (λ x. insert_sorted x (sort l)) e ∙ ap (insert_sorted b) (sort-Permᴰ p)
    sort-Permᴰ (Permᴰ.swap {a = a} {b = b} {a' = c} {l = l} e f) =
        insert_sorted_comm a b (sort l)
        ∙ ap (λ x. insert_sorted x (insert_sorted a (sort l))) f
        ∙ ap (λ x. insert_sorted c (insert_sorted x (sort l))) e
    sort-Permᴰ (Permᴰ.trans p r) = sort-Permᴰ p ∙ sort-Permᴰ r

-- The order of texts, and that of pairs of texts.
unfoldable pub leb_text : Text → Text → Bool
leb_text [] t = true
leb_text (c ∷ s) [] = false
leb_text (c ∷ s) (d ∷ t) = ltb c d || (c == d && leb_text s t)

unfoldable pub leb_pair : Text × Text → Text × Text → Bool
unfolding leb_text text_eq
leb_pair a b = if text_eq a.0 b.0 then leb_text a.1 b.1 else leb_text a.0 b.0

pub leb_text_total : (s t : Text) → leb_text s t ≡ false → leb_text t s ≡ true
unfolding leb_text
leb_text_total [] t h = cc
leb_text_total (c ∷ s) [] h = refl
leb_text_total (c ∷ s) (d ∷ t) h = ground (arith, leb_text_total s t)

pub leb_text_antisym : (s t : Text) → leb_text s t ≡ true → leb_text t s ≡ true → s ≡ t
unfolding leb_text
leb_text_antisym [] [] h k = refl
leb_text_antisym [] (d ∷ t) h k = cc
leb_text_antisym (c ∷ s) [] h k = cc
leb_text_antisym (c ∷ s) (d ∷ t) h k = ground (arith, leb_text_antisym s t)

pub leb_text_trans :
    (s t u : Text) → leb_text s t ≡ true → leb_text t u ≡ true → leb_text s u ≡ true
unfolding leb_text
leb_text_trans [] t u h k = refl
leb_text_trans (c ∷ s) [] u h k = cc
leb_text_trans (c ∷ s) (d ∷ t) [] h k = cc
leb_text_trans (c ∷ s) (d ∷ t) (e ∷ u) h k = ground (arith, leb_text_trans s t u)

leb_pair_same : (a b : Text × Text) → a.0 ≡ b.0 → leb_pair a b ≡ leb_text a.1 b.1
unfolding leb_pair
leb_pair_same a b e = rw ((text_eq_iff a.0 b.0).1 e) refl

leb_pair_other : (a b : Text × Text) → text_eq a.0 b.0 ≡ false → leb_pair a b ≡ leb_text a.0 b.0
unfolding leb_pair
leb_pair_other a b e = rw e refl

pub text_eq_sym : (s t : Text) → text_eq s t ≡ false → text_eq t s ≡ false
text_eq_sym s t h = elim (Bool-cases (text_eq t s)) [
  | inr other ↦ other
  | inl same ↦ let back = (text_eq_iff s t).1 (sym ((text_eq_iff t s).0 same)) in cc
]

leb_pair_total : (a b : Text × Text) → leb_pair a b ≡ false → leb_pair b a ≡ true
leb_pair_total a b h = elim (Bool-cases (text_eq a.0 b.0)) [
  | inl same ↦
      let e = (text_eq_iff a.0 b.0).0 same in
      leb_pair_same b a (sym e) ∙ leb_text_total a.1 b.1 (sym (leb_pair_same a b e) ∙ h)
  | inr other ↦
      leb_pair_other b a (text_eq_sym a.0 b.0 other)
      ∙ leb_text_total a.0 b.0 (sym (leb_pair_other a b other) ∙ h)
]

leb_pair_antisym : (a b : Text × Text) → leb_pair a b ≡ true → leb_pair b a ≡ true → a ≡ b
leb_pair_antisym a b h k = elim (Bool-cases (text_eq a.0 b.0)) [
  | inl same ↦
      let e = (text_eq_iff a.0 b.0).0 same in
      let f =
        leb_text_antisym a.1 b.1 (sym (leb_pair_same a b e) ∙ h)
          (sym (leb_pair_same b a (sym e)) ∙ k) in
      pairs e f
  | inr other ↦
      let e =
        leb_text_antisym a.0 b.0 (sym (leb_pair_other a b other) ∙ h)
          (sym (leb_pair_other b a (text_eq_sym a.0 b.0 other)) ∙ k) in
      absurd (let same = (text_eq_iff a.0 b.0).1 e in cc)
]
  where
    pairs : a.0 ≡ b.0 → a.1 ≡ b.1 → a ≡ b
    pairs e f = ap (λ x. (x, a.1)) e ∙ ap (λ y. (b.0, y)) f

leb_pair_trans :
    (a b c : Text × Text) → leb_pair a b ≡ true → leb_pair b c ≡ true → leb_pair a c ≡ true
leb_pair_trans a b c h k = elim (Bool-cases (text_eq a.0 b.0)) [
  | inl ab ↦
      let e = (text_eq_iff a.0 b.0).0 ab in
      elim (Bool-cases (text_eq b.0 c.0)) [
        | inl bc ↦
            let f = (text_eq_iff b.0 c.0).0 bc in
            leb_pair_same a c (e ∙ f)
            ∙ leb_text_trans a.1 b.1 c.1 (sym (leb_pair_same a b e) ∙ h)
                (sym (leb_pair_same b c f) ∙ k)
        | inr nbc ↦
            leb_pair_other a c (ap (λ x. text_eq x c.0) e ∙ nbc)
            ∙ ap (λ x. leb_text x c.0) e
            ∙ sym (leb_pair_other b c nbc)
            ∙ k
      ]
  | inr nab ↦ elim (Bool-cases (text_eq b.0 c.0)) [
    | inl bc ↦
        let f = (text_eq_iff b.0 c.0).0 bc in
        leb_pair_other a c (ap (text_eq a.0) (sym f) ∙ nab)
        ∙ ap (leb_text a.0) (sym f)
        ∙ sym (leb_pair_other a b nab)
        ∙ h
    | inr nbc ↦
        let ab = sym (leb_pair_other a b nab) ∙ h in
        let bc = sym (leb_pair_other b c nbc) ∙ k in
        let ac = leb_text_trans a.0 b.0 c.0 ab bc in
        elim (Bool-cases (text_eq a.0 c.0)) [
          | inr nac ↦ leb_pair_other a c nac ∙ ac
          | inl same ↦
              let f = (text_eq_iff a.0 c.0).0 same in
              let e = leb_text_antisym a.0 b.0 ab (ap (leb_text b.0) f ∙ bc) in
              absurd (let eq = (text_eq_iff a.0 b.0).1 e in cc)
        ]
  ]
]

-- The canonical order of texts and of pairs.
pub sort_texts-Permᴰ : {s t : List Text} → Permᴰ s t → sort leb_text s ≡ sort leb_text t
sort_texts-Permᴰ p = sort-Permᴰ leb_text leb_text_total leb_text_antisym leb_text_trans p

pub sort_pairs-Permᴰ : {s t : List (Text × Text)} → Permᴰ s t → sort leb_pair s ≡ sort leb_pair t
sort_pairs-Permᴰ p = sort-Permᴰ leb_pair leb_pair_total leb_pair_antisym leb_pair_trans p
