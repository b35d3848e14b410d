-- ===== src/Artwork/CoverArt.antt =====
-- What setting the cover art does to the pictures of a node.
use replex.Prelude.{
  ◌≡◌, refl, ap, ◌∙◌, inl, inr, Bool, true, false, not, some, List, [], ◌∷◌, ◌++◌, arith, filter,
  any, Bool-cases,
}
use replex.Prelude.Text.{Text, codes, text_eq, text_eq_iff}
use replex.Artwork.{Image, is_cover_art, update_cover_art, retain_first, upsert_cover_art}

abbrev other : Image → Bool
other image = not (is_cover_art image)

retain_first-other :
    (kept : Bool) (images : List Image)
    → filter other (retain_first kept images) ≡ filter other images
unfolding retain_first filter
retain_first-other kept [] = refl
retain_first-other kept (image ∷ images) =
    ground (arith, retain_first-other kept images, retain_first-other true images)

retain_first-marked : (images : List Image) → filter is_cover_art (retain_first true images) ≡ []
unfolding retain_first filter
retain_first-marked [] = refl
retain_first-marked (image ∷ images) = ground (arith, retain_first-marked images)

abbrev cover : Text → Text → Image
cover title url = record { kind = codes "coverArt"; url = url; alt = some title }

updated :
    (title url : Text) (image : Image)
    → is_cover_art image ≡ true
    → record image { url = url; alt = some title } ≡ cover title url
unfolding is_cover_art
updated title url image h =
    let e : image.kind ≡ codes "coverArt" = (text_eq_iff image.kind (codes "coverArt")).0 h in
    ap (λ k. with_kind k) e
  where
    with_kind : Text → Image
    with_kind k = record { kind = k; url = url; alt = some title }

update-other :
    (title url : Text) (images : List Image)
    → filter other (update_cover_art title url images) ≡ filter other images
unfolding update_cover_art filter is_cover_art
update-other title url [] = refl
update-other title url (image ∷ images) = ground (arith, update-other title url images)

first_cover :
    (image : Image) (images : List Image)
    → is_cover_art image ≡ true
    → filter is_cover_art (retain_first false (image ∷ images)) ≡ image ∷ []
unfolding filter retain_first
first_cover image images h = rw (h, filter, h) (ap (λ t. image ∷ t) (retain_first-marked images))

other_first :
    (image : Image) (images : List Image)
    → is_cover_art image ≡ false
    → filter is_cover_art (retain_first false (image ∷ images))
      ≡ filter is_cover_art (retain_first false images)
unfolding filter retain_first
other_first image images h = ground arith

still_cover :
    (title url : Text) (image : Image)
    → is_cover_art image ≡ true
    → is_cover_art (record image { url = url; alt = some title }) ≡ true
unfolding is_cover_art
still_cover title url image h = h

update-cover :
    (title url : Text) (images : List Image)
    → any is_cover_art images ≡ true
    → filter is_cover_art (retain_first false (update_cover_art title url images))
      ≡ cover title url ∷ []
unfolding update_cover_art any
update-cover title url [] h = cc
update-cover title url (image ∷ images) h = elim (Bool-cases (is_cover_art image)) [
  | inl found ↦ rw found (
      first_cover (record image { url = url; alt = some title }) images
        (still_cover title url image found)
      ∙ ap (λ t. t ∷ []) (updated title url image found))
  | inr further ↦ rw further (
      other_first image (update_cover_art title url images) further
      ∙ update-cover title url images (ground arith))
]

filter-snoc :
    (p : Image → Bool) (images : List Image) (image : Image)
    → filter p (images ++ image ∷ []) ≡ filter p images ++ filter p (image ∷ [])
unfolding filter
filter-snoc p [] image = refl
filter-snoc p (x ∷ images) image = ground (arith, filter-snoc p images image)

no_cover : (images : List Image) → any is_cover_art images ≡ false → filter is_cover_art images ≡ []
unfolding any filter
no_cover [] h = refl
no_cover (image ∷ images) h = ground (arith, no_cover images (ground arith))

append_nil : (images : List Image) → images ++ [] ≡ images
append_nil [] = refl
append_nil (x ∷ images) = ap (λ t. x ∷ t) (append_nil images)

-- Setting the cover art of a node leaves exactly one picture of that kind, with the given address and
-- title, and keeps all the other pictures in order.
pub upsert_cover_art-filter :
    (images : List Image) (title url : Text)
    → (filter is_cover_art (upsert_cover_art images title url)
        ≡ record { kind = codes "coverArt"; url = url; alt = some title } ∷ [])
      × (filter (λ image. not (is_cover_art image)) (upsert_cover_art images title url)
          ≡ filter (λ image. not (is_cover_art image)) images)
unfolding upsert_cover_art
upsert_cover_art-filter images title url = elim (Bool-cases (any is_cover_art images)) [
  | inl found ↦ rw found (
    update-cover title url images found,
    retain_first-other false (update_cover_art title url images) ∙ update-other title url images,
  )
  | inr new ↦ rw new (
    filter-snoc is_cover_art images (cover title url)
        ∙ ap (λ t. t ++ filter is_cover_art (cover title url ∷ [])) (no_cover images new)
        ∙ unfold filter is_cover_art text_eq in refl,
    filter-snoc other images (cover title url)
        ∙ unfold filter is_cover_art text_eq in append_nil (filter other images),
  )
]
