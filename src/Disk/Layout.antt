-- ===== src/Disk/Layout.antt =====
-- Where the fields of a record stand, also in a record that was cut off behind `n` bytes.
use replex.Prelude.{
  ℕ, ◌+◌, ◌≤◌, ◌<◌, ◌^◌, ◌≡◌, refl, sym, ap, ◌∙◌, true, false, List, [], ◌++◌, length, take, arith,
  length-append, ltb,
}
use replex.Prelude.Text.{text_eq}
use replex.Disk.Bytes.{to_be_bytes, from_be_bytes, from_be_bytes-to_be_bytes, length-to_be_bytes}
use replex.Disk.Slices.{append_nil, slice_part, append_assoc, length-take_le}
use replex.Disk.{slice, cache_magic, decode_record, decode_body}

module _ (ct body : List ℕ) where
  abbrev pub ct_field : List ℕ
  ct_field = to_be_bytes 2 (length ct)

  abbrev pub body_field : List ℕ
  body_field = to_be_bytes 8 (length body)

  abbrev pub layout : List ℕ
  layout = cache_magic ++ (ct_field ++ (ct ++ (body_field ++ body)))

  abbrev pub body_at : ℕ
  body_at = 6 + length ct + 8

  pub length-layout : length layout ≡ body_at + length body
  length-layout = omega (
    arith,
    length-append ct_field (ct ++ (body_field ++ body)),
    length-append ct (body_field ++ body),
    length-append body_field body,
    length-to_be_bytes 2 (length ct),
    length-to_be_bytes 8 (length body),
  )

  after_length : layout ≡ (cache_magic ++ ct_field) ++ (ct ++ (body_field ++ body))
  after_length = sym (append_assoc cache_magic ct_field (ct ++ (body_field ++ body)))

  after_ct : layout ≡ ((cache_magic ++ ct_field) ++ ct) ++ (body_field ++ body)
  after_ct = after_length ∙ sym (append_assoc (cache_magic ++ ct_field) ct (body_field ++ body))

  after_body_length : layout ≡ (((cache_magic ++ ct_field) ++ ct) ++ body_field) ++ (body ++ [])
  after_body_length =
      after_ct
      ∙ sym (append_assoc ((cache_magic ++ ct_field) ++ ct) body_field body)
      ∙ ap (λ t. (((cache_magic ++ ct_field) ++ ct) ++ body_field) ++ t) (sym (append_nil body))

  length-head : length (cache_magic ++ ct_field) ≡ 6
  length-head = omega (arith, length-to_be_bytes 2 (length ct))

  length-with_ct : length ((cache_magic ++ ct_field) ++ ct) ≡ 6 + length ct
  length-with_ct = omega (arith, length-head, length-append (cache_magic ++ ct_field) ct)

  length-with_body_length : length (((cache_magic ++ ct_field) ++ ct) ++ body_field) ≡ body_at
  length-with_body_length = omega (
    arith,
    length-with_ct,
    length-append ((cache_magic ++ ct_field) ++ ct) body_field,
    length-to_be_bytes 8 (length body),
  )

  module _ (n : ℕ) where
    pub magic_there : 4 ≤ n → slice 0 4 (take n layout) ≡ cache_magic
    magic_there h = slice_part [] cache_magic _ layout 0 4 n refl refl refl h

    pub ct_length_there :
        length ct < 2 ^ 16 → 6 ≤ n → from_be_bytes (slice 4 6 (take n layout)) ≡ length ct
    ct_length_there small h =
        ap from_be_bytes (
          slice_part cache_magic ct_field _ layout 4 6 n refl refl
            (omega (arith, length-to_be_bytes 2 (length ct))) h)
        ∙ from_be_bytes-to_be_bytes 2 (length ct) (omega arith)

    pub ct_there : 6 + length ct ≤ n → slice 6 (6 + length ct) (take n layout) ≡ ct
    ct_there h =
        slice_part (cache_magic ++ ct_field) ct (body_field ++ body) layout 6 (6 + length ct) n
          after_length (sym length-head) refl h

    pub body_length_there :
        length body < 2 ^ 64
        → body_at ≤ n
        → from_be_bytes (slice (6 + length ct) body_at (take n layout)) ≡ length body
    body_length_there small h =
        ap from_be_bytes (
          slice_part ((cache_magic ++ ct_field) ++ ct) body_field body layout (6 + length ct)
            body_at n after_ct (sym length-with_ct)
            (omega (arith, length-to_be_bytes 8 (length body))) h)
        ∙ from_be_bytes-to_be_bytes 8 (length body) (omega arith)

    pub body_there :
        body_at + length body ≤ n → slice body_at (body_at + length body) (take n layout) ≡ body
    body_there h =
        slice_part (((cache_magic ++ ct_field) ++ ct) ++ body_field) body [] layout body_at
          (body_at + length body) n after_body_length (sym length-with_body_length) refl h

    -- Behind the first six bytes, the magic and the length of the content type are what they were.
    pub decode_record_head :
        length ct < 2 ^ 16
        → 6 ≤ n
        → n ≤ length layout
        → decode_record (take n layout)
          ≡ decode_body (take n layout) (length ct) (6 + length ct) body_at
    unfolding decode_record text_eq
    decode_record_head small h k =
        let past_magic : ltb n 4 ≡ false = ground arith in
        let past_length : ltb n 6 ≡ false = ground arith in
        let fits : ltb (6 + length ct) (2 ^ 64) ≡ true = ground arith in
        let fits_on : ltb (body_at) (2 ^ 64) ≡ true = ground arith in
        rw
          (
            length-take_le n layout k,
            magic_there (omega arith),
            past_magic,
            past_length,
            ct_length_there small h,
            fits,
            fits_on,
          )
          refl
