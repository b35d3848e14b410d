-- ===== src/Disk/Truncated.antt =====
-- A record that was cut off is not taken for a response.
use replex.Prelude.{
  ℕ, ◌+◌, ◌≤◌, ◌<◌, ◌^◌, ◌≡◌, refl, sym, ap, ◌∙◌, List, [], length, take, arith, ltb, Option, none,
  some, unwrap_or, Bool-cases, inl, inr,
}
use replex.Prelude.Text.{text_eq}
use replex.Disk.Slices.{length-take_le}
use replex.Disk.{encode_record, decode_record, decode_body}
use replex.Disk.Layout.{
  layout, body_at, length-layout, magic_there, body_length_there, decode_record_head,
}

module _ (ct body : List ℕ) (n : ℕ) where
  decode_record_short :
      4 ≤ n → n < 6 → n ≤ length (layout ct body) → decode_record (take n (layout ct body)) ≡ none
  unfolding decode_record text_eq
  decode_record_short lo hi k =
      rw (length-take_le n (layout ct body) k, magic_there ct body n lo) (ground arith)

  decode_body_cut :
      length body < 2 ^ 64
      → n < length (layout ct body)
      → decode_body (take n (layout ct body)) (length ct) (6 + length ct) (body_at ct body) ≡ none
  unfolding decode_body
  decode_body_cut fits cut =
      let size = length-layout ct body in
      let all = length-take_le n (layout ct body) (omega arith) in
      elim (Bool-cases (ltb n (body_at ct body))) [
        | inl early ↦ rw (all, early) refl
        | inr late ↦ rw (all, late, body_length_there ct body n fits (ground arith)) (ground arith)
      ]

-- A record that was cut off behind its first four bytes is refused, wherever the cut is.
pub decode_record-truncated :
    (content_type : Option (List ℕ)) (body stored : List ℕ) (n : ℕ)
    → encode_record content_type body ≡ some stored
    → 4 ≤ n
    → n < length stored
    → decode_record (take n stored) ≡ none
unfolding encode_record
decode_record-truncated content_type body stored n written lo cut =
    let ct = unwrap_or content_type [] in
    let small : length ct < 2 ^ 16 = ground arith in
    let fits : length body < 2 ^ 64 = ground arith in
    let same : layout ct body ≡ stored = ground arith in
    let shorter : n < length (layout ct body) = omega (arith, ap length same) in
    ap (λ t. decode_record (take n t)) (sym same) ∙ elim (Bool-cases (ltb n 6)) [
      | inl early ↦ decode_record_short ct body n lo (ground arith) (omega arith)
      | inr late ↦
          decode_record_head ct body n small (ground arith) (omega arith)
          ∙ decode_body_cut ct body n fits shorter
    ]
