-- ===== src/Identity/Xml.antt =====
-- plex_client.rs `parse_xml_attrs`, and the scan of the shared servers' answer, which is XML.
pub mod Fuel
use replex.Prelude.{
  ℕ, zero, suc, ◌≤◌, ◌≡◌, refl, ◌∙◌, inl, inr, Option, none, some, List, [], ◌∷◌, arith, length,
  map_or, and_then, not, unwrap_or, is_empty, Bool, true, false, ◌==◌, if◌then◌else◌, Option-cases,
  Bool-cases,
}
use replex.Prelude.Int.{ℤ, pos}
use replex.Prelude.Text.{Text, codes, text_eq, is_text, trim, trim_start, strip_prefix}
use replex.Prelude.Text.Decimal.{parse_i64}
use replex.Policy.Entries.{UserIdentity}

-- What stands before the first `c`, and behind it.
unfoldable pub cut_at : ℕ → Text → Option (Text × Text)
cut_at c [] = none
cut_at c (d ∷ s) =
    let rest = cut_at c s in
    if d == c then some ([], s) else (map_or rest none (λ r. some (d ∷ r.0, r.1)))

-- The same for a text.
unfoldable pub cut_on : Text → Text → Option (Text × Text)
unfolding strip_prefix
cut_on t [] = none
cut_on t (d ∷ s) =
    let rest = cut_on t s in
    map_or (strip_prefix t (d ∷ s)) (map_or rest none (λ r. some (d ∷ r.0, r.1)))
      (λ r. some ([], r))

-- The pieces behind each occurrence of a text, `split(t).skip(1)`.
unfoldable pub pieces : ℕ → Text → Text → List Text
unfolding cut_on
pieces zero t s = []
pieces (suc n) t s = elim (cut_on t s) [
  | none ↦ []
  | some (before, rest) ↦ map_or (cut_on t rest) rest (λ r. r.0) ∷ pieces n t rest
]

-- A value in quotes, and what stands behind it.
unfoldable pub quoted : Text → Option (Text × Text)
unfolding cut_at trim_start strip_prefix
quoted after = and_then (strip_prefix (codes "\"") (trim_start after)) (cut_at b'"')

-- The loop: a key up to the equals sign, a value in quotes. A later value of a key comes first.
unfoldable pub attrs : ℕ → Text → List (Text × Text) → List (Text × Text)
unfolding cut_at quoted trim trim_start
attrs zero rest m = m
attrs (suc n) rest m = elim (cut_at b'=' rest) [
  | none ↦ m
  | some (key, after) ↦ elim (quoted after) [
    | none ↦ m
    | some (value, more) ↦ attrs n (trim_start more) ((trim key, value) ∷ m)
  ]
]

unfoldable pub parse_xml_attrs : Text → List (Text × Text)
unfolding attrs
parse_xml_attrs s = attrs (length (trim s)) (trim s) []
