-- ===== src/Config/Upstream/Enough.antt =====
-- That one turn of the loop that trims the path of an address is enough.
use replex.Prelude.{
  ℕ, zero, suc, ◌≡◌, refl, sym, ap, ◌∙◌, ◌==◌, inl, inr, false, [], ◌∷◌, arith, Bool-cases,
}
use mathlib.Core.List.{reverse}
use mathlib.Core.List
use replex.Prelude.Text.{Text, codes, starts_with, ends_with}
use replex.Config.Upstream.{UrlLibrary, drop_slashes, trim_slashes, has_trailing, trim_path}

drop_slashes-head : (s : Text) → starts_with (codes "/") (drop_slashes s) ≡ false
unfolding starts_with
drop_slashes-head [] = refl
drop_slashes-head (c ∷ s) = elim (Bool-cases (c == b'/')) [
  | inl slash ↦ rw slash (drop_slashes-head s)
  | inr other ↦ rw other (ground arith)
]

reverse_aux_twice : (s r : Text) → List.reverse_aux (List.reverse_aux s r) [] ≡ List.reverse_aux r s
reverse_aux_twice [] r = refl
reverse_aux_twice (c ∷ s) r = reverse_aux_twice s (c ∷ r)

-- A trimmed text does not end with a slash.
ends_with-trim_slashes : (s : Text) → ends_with (codes "/") (trim_slashes s) ≡ false
unfolding ends_with trim_slashes
ends_with-trim_slashes s =
    ap (starts_with (codes "/")) (reverse_aux_twice (drop_slashes (reverse s)) [])
    ∙ drop_slashes-head (reverse s)

module _ (url : UrlLibrary) where
  has_trailing_one : (u : url.Url) → url.path u ≡ codes "/" → has_trailing url u ≡ false
  unfolding has_trailing
  has_trailing_one u e = rw e refl

  has_trailing_trimmed :
      (u : url.Url) (s : Text) → url.path u ≡ trim_slashes s → has_trailing url u ≡ false
  unfolding has_trailing
  has_trailing_trimmed u s e = rw (e, ends_with-trim_slashes s) (ground arith)

  abbrev trimmed : url.Url → url.Url
  trimmed u = url.set_path (trim_slashes (url.path u)) u

  nothing_left : (u : url.Url) → has_trailing url (trimmed u) ≡ false
  nothing_left u = go (trim_slashes (url.path u)) refl
    where
      go : (p : Text) → trim_slashes (url.path u) ≡ p → has_trailing url (trimmed u) ≡ false
      go [] e =
          has_trailing_one (trimmed u)
            (ap (λ t. url.path (url.set_path t u)) e ∙ url.path-set_path_empty u)
      go (c ∷ p) e =
          has_trailing_trimmed (trimmed u) (url.path u)
            (url.path-set_path u (λ n. let f = sym e ∙ n in cc))

  still : (fuel : ℕ) (u : url.Url) → has_trailing url u ≡ false → trim_path url fuel u ≡ u
  unfolding trim_path
  still zero u h = refl
  still (suc fuel) u h = rw h refl

  -- One turn of the loop that trims the path of an address is enough: more give the same address.
  pub trim_path_enough : (fuel : ℕ) (u : url.Url) → trim_path url (suc fuel) u ≡ trim_path url 1 u
  unfolding trim_path
  trim_path_enough fuel u = elim (Bool-cases (has_trailing url u)) [
    | inr clean ↦ rw clean refl
    | inl trailing ↦ rw trailing (still fuel (trimmed u) (nothing_left u))
  ]
