-- ===== src/Artwork.antt =====
-- models.rs and transform/media_style.rs: the pictures of a node, and the display block that a hero
-- row carries.
pub mod CoverArt
use replex.Prelude.{
  Bool, true, false, not, Option, none, some, List, [], ◌∷◌, ◌++◌, any, if◌then◌else◌,
}
use replex.Prelude.Text.{Text, codes, text_eq}

pub record Image : Type 0 where
  pub kind : Text
  pub url : Text
  pub alt : Option Text

pub record DisplayField : Type 0 where
  pub kind : Option Text
  pub fields : List Text

pub record DisplayImage : Type 0 where
  pub kind : Option Text
  pub image_type : Option Text

-- `type`, which the program leaves unset, is not here.
pub record Meta : Type 0 where
  pub display_fields : List DisplayField
  pub display_images : List DisplayImage

abbrev dated : Text → DisplayField
dated kind = record {
  kind = some kind;
  fields = codes "title" ∷ codes "originallyAvailableAt" ∷ [];
}

abbrev covered : Text → DisplayImage
covered kind = record { kind = some kind; image_type = some (codes "coverArt") }

abbrev pub hero_meta : Meta
hero_meta = record {
  display_fields =
      dated (codes "movie")
      ∷ record { kind = some (codes "show"); fields = codes "title" ∷ codes "childCount" ∷ [] }
      ∷ dated (codes "clip")
      ∷ dated (codes "mixed")
      ∷ [];
  display_images =
      covered (codes "hero")
      ∷ covered (codes "mixed")
      ∷ covered (codes "clip")
      ∷ covered (codes "movie")
      ∷ covered (codes "show")
      ∷ [];
}

unfoldable pub is_cover_art : Image → Bool
unfolding text_eq
is_cover_art image = text_eq image.kind (codes "coverArt")

-- `iter_mut().find`, and the change to what it finds.
unfoldable pub update_cover_art : Text → Text → List Image → List Image
unfolding is_cover_art
update_cover_art title url [] = []
update_cover_art title url (image ∷ images) =
    let rest = update_cover_art title url images in
    if is_cover_art image
    then record image { url = url; alt = some title } ∷ images
    else image ∷ rest

-- The `retain` with its flag `kept_cover_art`.
unfoldable pub retain_first : Bool → List Image → List Image
unfolding is_cover_art
retain_first kept [] = []
retain_first kept (image ∷ images) =
    let rest = retain_first kept images in
    let marked = retain_first true images in
    if not (is_cover_art image) then image ∷ rest else if kept then rest else image ∷ marked

unfoldable pub upsert_cover_art : List Image → Text → Text → List Image
unfolding any is_cover_art update_cover_art retain_first
upsert_cover_art images title url =
    if any is_cover_art images
    then retain_first false (update_cover_art title url images)
    else images ++ record { kind = codes "coverArt"; url = url; alt = some title } ∷ []
