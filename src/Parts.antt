-- ===== src/Parts.antt =====
-- plex_client.rs: the facts about media parts that are cached while metadata passes through, and the
-- check of a direct part request against them.
use replex.Prelude.{
  ◌≡◌, refl, ◌⊎◌, inl, inr, ◌++◌, ◌&&◌, Bool, true, false, Option, none, some, List, [], ◌∷◌, Memᴰ,
  arith, map_or, if◌then◌else◌,
}
use mathlib.Core.List.Memᴰ
use replex.Prelude.Int.{ℤ, leb_ℤ}
use replex.Media.{Media, MediaPart}
use replex.Policy.Limit.{ResolutionLimit, leb_limit}
use replex.Policy.Entries.{ResolutionPolicy, is_unrestricted}
use replex.Policy.Classify.{classify, media_allowed}
use replex.Cache.{Cache}

pub record PartMediaClassification : Type 0 where
  pub resolution : Option ResolutionLimit
  pub bitrate : Option ℤ

-- The facts of a version, as `cache_part_classification` records them.
abbrev pub facts : Media → PartMediaClassification
facts m = record { resolution = classify m; bitrate = m.bitrate }

abbrev pub bitrate_allowed : Option ℤ → Option ℤ → Bool
bitrate_allowed bitrate none = true
bitrate_allowed bitrate (some max_bitrate) = map_or bitrate false (λ b. leb_ℤ b max_bitrate)

unfoldable pub part_classification_allowed : PartMediaClassification → ResolutionPolicy → Bool
part_classification_allowed c policy =
    let resolution_allowed = map_or c.resolution false (λ r. leb_limit r policy.limit) in
    if is_unrestricted policy
    then bitrate_allowed c.bitrate policy.max_bitrate
    else if resolution_allowed
    then bitrate_allowed c.bitrate policy.max_bitrate
    else false

-- A part is permitted exactly when its version is, and its bitrate is within the account's cap.
pub part_classification_allowed-eq :
    (m : Media) (policy : ResolutionPolicy)
    → part_classification_allowed (facts m) policy
      ≡ (media_allowed m policy && bitrate_allowed m.bitrate policy.max_bitrate)
unfolding part_classification_allowed media_allowed
part_classification_allowed-eq m policy = ground arith

module _ (cache : Cache ℤ PartMediaClassification) where
  open cache use {Store, lookup, insert, lookup-insert}

  unfoldable pub insert_parts : Store → PartMediaClassification → List MediaPart → Store
  insert_parts s c [] = s
  insert_parts s c (part ∷ parts) = insert_parts (insert s part.id c) c parts

  unfoldable pub cache_part_classification : Store → List Media → Store
  unfolding insert_parts
  cache_part_classification s [] = s
  cache_part_classification s (m ∷ media) =
      cache_part_classification (insert_parts s (facts m) m.parts) media

  -- `c` holds the facts of a version in `seen` that has a part `id`.
  pub record Origin (seen : List Media) (id : ℤ) (c : PartMediaClassification) : Type 0 where
    pub version : Media
    pub part : MediaPart
    pub was_seen : Memᴰ version seen
    pub has_part : Memᴰ part version.parts
    pub same_id : part.id ≡ id
    pub same_facts : c ≡ facts version

  abbrev pub IsSound : List Media → Store → Type 0
  IsSound seen s = (id : ℤ) (c : PartMediaClassification) → lookup s id ≡ some c → Origin seen id c

  insert_parts-IsSound :
      (seen : List Media) (m : Media) (parts : List MediaPart) (s : Store)
      → Memᴰ m seen
      → ((part : MediaPart) → Memᴰ part parts → Memᴰ part m.parts)
      → IsSound seen s
      → IsSound seen (insert_parts s (facts m) parts)
  unfolding insert_parts
  insert_parts-IsSound seen m [] s at_m sub h = h
  insert_parts-IsSound seen m (part ∷ parts) s at_m sub h =
      insert_parts-IsSound seen m parts (insert s part.id (facts m)) at_m
        (λ p i. sub p (Memᴰ.tail i))
        (λ id c e. origin id c (lookup-insert s part.id id (facts m) c e))
    where
      origin :
          (id : ℤ) (c : PartMediaClassification)
          → ((part.id ≡ id) × (c ≡ facts m)) ⊎ (lookup s id ≡ some c)
          → Origin seen id c
      origin id c (inl (same, e)) = record {
        version = m;
        part = part;
        was_seen = at_m;
        has_part = sub part (Memᴰ.head refl);
        same_id = same;
        same_facts = e;
      }
      origin id c (inr old) = h id c old

  cache_all-IsSound :
      (seen media : List Media) (s : Store)
      → ((m : Media) → Memᴰ m media → Memᴰ m seen)
      → IsSound seen s
      → IsSound seen (cache_part_classification s media)
  unfolding cache_part_classification
  cache_all-IsSound seen [] s sub h = h
  cache_all-IsSound seen (m ∷ media) s sub h =
      cache_all-IsSound seen media (insert_parts s (facts m) m.parts) (λ x i. sub x (Memᴰ.tail i))
        (insert_parts-IsSound seen m m.parts s (sub m (Memᴰ.head refl)) (λ p i. i) h)

  -- Every fact that the cache holds is that of a version which passed through, and which has the
  -- part: recording more versions keeps this, whatever the cache drops.
  pub cache_part_classification-IsSound :
      (seen media : List Media) (s : Store)
      → IsSound seen s
      → IsSound (seen ++ media) (cache_part_classification s media)
  cache_part_classification-IsSound seen media s h =
      cache_all-IsSound (seen ++ media) media s (λ m i. Memᴰ.append_right seen i)
        (λ id c e.
          let o = h id c e in
          record {
            version = o.version;
            part = o.part;
            was_seen = Memᴰ.append_left media o.was_seen;
            has_part = o.has_part;
            same_id = o.same_id;
            same_facts = o.same_facts;
          })
