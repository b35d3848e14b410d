-- ===== src/Enforce/Cap.antt =====
-- The bitrate cap of an account.
use replex.Prelude.{
  ◌-◌, ◌^◌, ◌≡◌, refl, ◌∙◌, ◌≢◌, ◌⊎◌, inl, inr, Bool, true, false, Option, none, some, arith,
  Bool-cases, Option-cases, map_or, or_else, and_then,
}
use replex.Prelude.Int.{ℤ, pos, negsuc, ◌≤ℤ◌, ltb_ℤ, leb_ℤ, leb_ℤ_iff, min_ℤ}
use replex.Prelude.Text.{Text}
use replex.Prelude.Text.Decimal.{show_i64, parse_i64, parse_i64-show_i64, parse_i64_range}
use replex.Cache.{Cache}
use replex.Parts.{PartMediaClassification}
use replex.Queries.{Queries, get-replace_query}
use replex.Enforce.{
  PlaybackRequest, key_path, key_max_bitrate, key_bitrate, requested_bitrate, cap_bitrate, with_cap,
}
use replex.Queries.{replace_query}

max_ne_path : key_max_bitrate ≢ key_path
max_ne_path e = ground arith

bitrate_ne_path : key_bitrate ≢ key_path
bitrate_ne_path e = ground arith

max_ne_bitrate : key_max_bitrate ≢ key_bitrate
max_ne_bitrate e = ground arith

-- Whether a request is rewritten.
abbrev exceeds : ℤ → Option ℤ → Bool
exceeds cap current = map_or current true (λ c. ltb_ℤ (map_or current cap (λ d. min_ℤ d cap)) c)

module _ (q : Queries) (cache : Cache ℤ PartMediaClassification) (req : PlaybackRequest) where
  open q use {
    Map, get, remove, insert, get-remove_self, get-remove_ne, get-insert_ne, get-insert_self,
  }

  capped : Map → Text → Map
  capped m v = insert (remove (remove m key_bitrate) key_max_bitrate) key_max_bitrate v

  path-capped : (m : Map) (v : Text) → get (capped m v) key_path ≡ get m key_path
  unfolding capped
  path-capped m v =
      get-insert_ne _ key_max_bitrate key_path v max_ne_path
      ∙ get-remove_ne _ key_max_bitrate key_path max_ne_path
      ∙ get-remove_ne m key_bitrate key_path bitrate_ne_path

  max-capped : (m : Map) (v : Text) → get (capped m v) key_max_bitrate ≡ some v
  unfolding capped
  max-capped m v = rw (
    get-insert_self (remove (remove m key_bitrate) key_max_bitrate) key_max_bitrate v,
    get-remove_self (remove m key_bitrate) key_max_bitrate,
  )

  -- The cap leaves the item that is asked for.
  pub path-with_cap :
      (cap : Option ℤ) (m : Map)
      → req.uri_parses ≡ true
      → get (with_cap q cache req cap m) key_path ≡ get m key_path
  unfolding cap_bitrate
  path-with_cap none m parses = refl
  path-with_cap (some cap) m parses =
      elim (Bool-cases (exceeds cap (requested_bitrate q cache m))) [
        | inl over ↦
            rw (over, parses, get-replace_query q _ m key_path) (unfold capped in path-capped m _)
        | inr under ↦ rw under
      ]

  requested_bitrate-capped :
      (m : Map) (e : ℤ)
      → negsuc (2 ^ 63 - 1) ≤ℤ e
      → e ≤ℤ pos (2 ^ 63 - 1)
      → requested_bitrate q cache (replace_query q true (capped m (show_i64 e)) m) ≡ some e
  unfolding requested_bitrate
  requested_bitrate-capped m e lo hi =
      rw (get-replace_query q (capped m (show_i64 e)) m key_max_bitrate, max-capped m (show_i64 e))
        (parse_i64-show_i64 e lo hi)

  -- What the rewriting leaves, by what was asked for.
  cap_bitrate_over :
      (cap : ℤ) (m : Map) (current : Option ℤ)
      → requested_bitrate q cache m ≡ current
      → req.uri_parses ≡ true
      → exceeds cap current ≡ true
      → cap_bitrate q cache req cap m
        ≡ replace_query q true (capped m (show_i64 (map_or current cap (λ d. min_ℤ d cap)))) m
  unfolding cap_bitrate capped
  cap_bitrate_over cap m current asked parses over = rw (asked, over, parses) refl

  cap_bitrate_under :
      (cap : ℤ) (m : Map) (current : Option ℤ)
      → requested_bitrate q cache m ≡ current
      → exceeds cap current ≡ false
      → cap_bitrate q cache req cap m ≡ m
  unfolding cap_bitrate
  cap_bitrate_under cap m current asked under = rw (asked, under) refl

  requested_range :
      (m : Map) (c : ℤ)
      → requested_bitrate q cache m ≡ some c
      → (negsuc (2 ^ 63 - 1) ≤ℤ c) × (c ≤ℤ pos (2 ^ 63 - 1))
  unfolding requested_bitrate
  requested_range m c asked = text (or_else (get m key_max_bitrate) (get m key_bitrate)) asked
    where
      text :
          (t : Option Text)
          → and_then t parse_i64 ≡ some c
          → (negsuc (2 ^ 63 - 1) ≤ℤ c) × (c ≤ℤ pos (2 ^ 63 - 1))
      text none e = cc
      text (some t) e = parse_i64_range t c e

  -- For a cap from 0 to the largest `i64` and a request whose URI parses: what the cap reads of the
  -- request that goes on is a number, and no more than the cap.
  pub requested_bitrate-cap_bitrate :
      (cap : ℤ) (m : Map)
      → req.uri_parses ≡ true
      → pos 0 ≤ℤ cap
      → cap ≤ℤ pos (2 ^ 63 - 1)
      → (b : ℤ) × (requested_bitrate q cache (cap_bitrate q cache req cap m) ≡ some b) × (b ≤ℤ cap)
  requested_bitrate-cap_bitrate cap m parses lo hi =
      elim (Option-cases (requested_bitrate q cache m)) [
        | inl unasked ↦ (
          cap,
          rw (cap_bitrate_over cap m none unasked parses refl)
              (requested_bitrate-capped m cap (ground arith) hi),
          ground arith,
        )
        | inr (c, asked) ↦ elim (Bool-cases (exceeds cap (some c))) [
          | inl over ↦ (
            min_ℤ c cap,
            rw (cap_bitrate_over cap m (some c) asked parses over) (
                requested_bitrate-capped m (min_ℤ c cap)
                  (ground (arith, (requested_range m c asked).0)) (ground arith)),
            ground arith,
          )
          | inr under ↦ (c, rw (cap_bitrate_under cap m (some c) asked under) asked, ground arith)
        ]
      ]

  -- The number that a parameter has, where it is there and reads as an `i64`.
  abbrev reading : Map → Text → Option ℤ
  reading m name = and_then (get m name) parse_i64

  -- A parameter that is absent, or is no number, or is one within the cap.
  abbrev AtMost : ℤ → Map → Text → Type 0
  AtMost cap m name = map_or (reading m name) true (λ b. leb_ℤ b cap) ≡ true

  -- What the cap makes of the parameters `m`: one of `maxVideoBitrate` and, where that is absent,
  -- `videoBitrate` is a number within the cap; a number in `maxVideoBitrate` is within it; and so is
  -- one in `videoBitrate`, unless `m` has both parameters and goes on as it is.
  pub record IsCapped (cap : ℤ) (m after : Map) : Type 0 where
    pub asked : ℤ
    pub asked_within : asked ≤ℤ cap
    pub asks :
        (reading after key_max_bitrate ≡ some asked)
        ⊎ ((get after key_max_bitrate ≡ none) × (reading after key_bitrate ≡ some asked))
    pub max_within : AtMost cap after key_max_bitrate
    pub bitrate_within :
        AtMost cap after key_bitrate
        ⊎ ((v : Text) × (w : Text) × (get m key_max_bitrate ≡ some v)
            × (get m key_bitrate ≡ some w)
            × (after ≡ m))

  bitrate-capped : (m : Map) (v : Text) → get (capped m v) key_bitrate ≡ none
  unfolding capped
  bitrate-capped m v =
      get-insert_ne _ key_max_bitrate key_bitrate v max_ne_bitrate
      ∙ get-remove_ne _ key_max_bitrate key_bitrate max_ne_bitrate
      ∙ get-remove_self m key_bitrate

  capped-IsCapped :
      (cap e : ℤ) (m : Map)
      → negsuc (2 ^ 63 - 1) ≤ℤ e
      → e ≤ℤ pos (2 ^ 63 - 1)
      → e ≤ℤ cap
      → IsCapped cap m (replace_query q true (capped m (show_i64 e)) m)
  capped-IsCapped cap e m lo hi within =
      let after = replace_query q true (capped m (show_i64 e)) m in
      let max : reading after key_max_bitrate ≡ some e =
        rw
          (get-replace_query q (capped m (show_i64 e)) m key_max_bitrate, max-capped m (show_i64 e))
          (parse_i64-show_i64 e lo hi) in
      let gone : get after key_bitrate ≡ none =
        get-replace_query q (capped m (show_i64 e)) m key_bitrate ∙ bitrate-capped m (show_i64 e) in
      record {
        asked = e;
        asked_within = within;
        asks = inl max;
        max_within = rw max ((leb_ℤ_iff e cap).1 within);
        bitrate_within = inl (rw gone refl);
      }

  unchanged-IsCapped :
      (cap c : ℤ) (m : Map) → requested_bitrate q cache m ≡ some c → c ≤ℤ cap → IsCapped cap m m
  unfolding requested_bitrate
  unchanged-IsCapped cap c m asked within = elim (Option-cases (get m key_max_bitrate)) [
    | inl absent ↦
        let reads : reading m key_bitrate ≡ some c = rw absent at asked in
        record {
          asked = c;
          asked_within = within;
          asks = inr (absent, reads);
          max_within = rw absent refl;
          bitrate_within = inl (rw reads ((leb_ℤ_iff c cap).1 within));
        }
    | inr (v, there) ↦
        let reads : reading m key_max_bitrate ≡ some c = rw there (rw there at asked) in
        record {
          asked = c;
          asked_within = within;
          asks = inl reads;
          max_within = rw reads ((leb_ℤ_iff c cap).1 within);
          bitrate_within = elim (Option-cases (get m key_bitrate)) [
            | inl alone ↦ inl (rw alone refl)
            | inr (w, both) ↦ inr (v, w, there, both, refl)
          ];
        }
  ]

  -- For a cap from 0 to the largest `i64` and a request whose URI parses: behind the cap, either
  -- `maxVideoBitrate`, or `videoBitrate` where the former is absent, is a number within the cap; a
  -- number in `maxVideoBitrate` is within it in any case; and one in `videoBitrate` is too, unless
  -- the request names both parameters, and then it goes on as it is.
  pub cap_bitrate-IsCapped :
      (cap : ℤ) (m : Map)
      → req.uri_parses ≡ true
      → pos 0 ≤ℤ cap
      → cap ≤ℤ pos (2 ^ 63 - 1)
      → IsCapped cap m (cap_bitrate q cache req cap m)
  cap_bitrate-IsCapped cap m parses lo hi = elim (Option-cases (requested_bitrate q cache m)) [
    | inl unasked ↦
        rw (cap_bitrate_over cap m none unasked parses refl)
          (capped-IsCapped cap cap m (ground arith) hi (ground arith))
    | inr (c, asked) ↦ elim (Bool-cases (exceeds cap (some c))) [
      | inl over ↦ rw (cap_bitrate_over cap m (some c) asked parses over) (
          capped-IsCapped cap (min_ℤ c cap) m (ground (arith, (requested_range m c asked).0))
            (ground arith) (ground arith))
      | inr under ↦
          rw (cap_bitrate_under cap m (some c) asked under)
            (unchanged-IsCapped cap c m asked (ground arith))
    ]
  ]
