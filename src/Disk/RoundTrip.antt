-- ===== src/Disk/RoundTrip.antt =====
-- A record that is written is read back.
use replex.Prelude.{
  ℕ, ◌+◌, ◌<◌, ◌^◌, ◌≡◌, refl, sym, ap, ◌∙◌, true, false, List, [], ◌∷◌, length, take, arith, ltb,
  Option, none, some, unwrap_or,
}
use replex.Disk.Bytes.{is_utf8}
use replex.Disk.Slices.{take-length, length-take_le}
use replex.Disk.{encode_record, decode_record, decode_body, decode_content_type}
use replex.Disk.Layout.{
  layout, body_at, length-layout, ct_there, body_length_there, body_there, decode_record_head,
}

-- An empty content type is written as no content type is.
abbrev pub some_text : List ℕ → Option (List ℕ)
some_text [] = none
some_text (b ∷ bytes) = some (b ∷ bytes)

decode_content_type_valid :
    (ct : List ℕ) → is_utf8 ct ≡ true → decode_content_type (length ct) ct ≡ some (some_text ct)
unfolding decode_content_type
decode_content_type_valid [] valid = refl
decode_content_type_valid (b ∷ bytes) valid = ground (arith, valid)

module _ (ct body : List ℕ) where
  whole :
      length ct < 2 ^ 16
      → is_utf8 ct ≡ true
      → length (layout ct body) < 2 ^ 64
      → decode_record (take (length (layout ct body)) (layout ct body))
        ≡ some (record { content_type = some_text ct; body = body })
  unfolding decode_body
  whole small valid fits =
      let size = length-layout ct body in
      let n = length (layout ct body) in
      let no_wrap : ltb (body_at ct body + length body) (2 ^ 64) ≡ true = ground arith in
      let there : ltb (length (take n (layout ct body))) (body_at ct body) ≡ false =
        rw (length-take_le n (layout ct body) (omega arith)) (ground arith) in
      let complete : ltb (length (take n (layout ct body))) (body_at ct body + length body)
          ≡ false =
        rw (length-take_le n (layout ct body) (omega arith)) (ground arith) in
      decode_record_head ct body n small (omega arith) (omega arith)
      ∙ rw
          (
            there,
            body_length_there ct body n (omega arith) (omega arith),
            no_wrap,
            complete,
            ct_there ct body n (omega arith),
            decode_content_type_valid ct valid,
            body_there ct body n (omega arith),
          )
          refl

-- A record that is written, with a content type in UTF-8 and of fewer than 2 ^ 64 bytes, is read
-- back: the body, and the content type unless it is empty.
pub decode_record-encode_record :
    (content_type : Option (List ℕ)) (body stored : List ℕ)
    → encode_record content_type body ≡ some stored
    → is_utf8 (unwrap_or content_type []) ≡ true
    → length stored < 2 ^ 64
    → decode_record stored
      ≡ some (record { content_type = some_text (unwrap_or content_type []); body = body })
unfolding encode_record
decode_record-encode_record content_type body stored written valid fits =
    let ct = unwrap_or content_type [] in
    let small : length ct < 2 ^ 16 = ground arith in
    let same : layout ct body ≡ stored = ground arith in
    ap decode_record (sym same ∙ sym (take-length (layout ct body)))
    ∙ whole ct body small valid (omega (arith, ap length same))
