-- ===== src/Metadata.antt =====
-- models.rs: `MetaData`, a node of Plex's answers, with its three lists of nested nodes. `Item` has
-- the other fields that the modelled code reads.
pub mod Forest
pub mod Children
pub mod Filter
use replex.Prelude.{
  ◌&&◌, ◌||◌, ◌==◌, Bool, true, false, not, Option, none, some, List, [], ◌∷◌, is_some, map_or,
  if◌then◌else◌, any, unwrap_or,
}
use replex.Prelude.Int.{ℤ, pos, ltb_ℤ, leb_ℤ}
use replex.Prelude.Text.{Text, codes, text_eq, starts_with, to_lowercase}
use replex.Media.{Media}
use replex.Artwork.{Image, Meta}

pub record Item : Type 0 where
  pub rating_key : Option Text
  pub key : Option Text
  pub title : Text
  pub kind : Text
  pub library_section_id : Option ℤ
  pub context : Option Text
  pub hub_identifier : Option Text
  pub size : Option ℤ
  pub style : Option Text
  pub leaf_count : Option ℤ
  pub viewed_leaf_count : Option ℤ
  pub view_count : Option ℤ
  pub labels : List Text
  pub media : List Media
  pub user_state : Option Bool
  pub guid : Option Text
  pub parent_guid : Option Text
  pub art : Option Text
  pub thumb : Option Text
  pub images : List Image
  pub meta : Option Meta

mutual
  -- The fields, and the lists `metadata`, `directory` and `video`.
  pub data MetaData : Type 0 where
    node : Item → MetaList → MetaList → MetaList → MetaData

  pub data MetaList : Type 0 where
    nil : MetaList
    cons : MetaData → MetaList → MetaList

abbrev pub item_of : MetaData → Item
item_of (node i m d v) = i

abbrev pub with_item : MetaData → Item → MetaData
with_item (node i m d v) j = node j m d v

abbrev pub to_list : MetaList → List MetaData
to_list nil = []
to_list (cons c cs) = c ∷ to_list cs

abbrev pub of_list : List MetaData → MetaList
of_list [] = nil
of_list (c ∷ cs) = cons c (of_list cs)

abbrev pub no_nodes : MetaList → Bool
no_nodes nil = true
no_nodes (cons c cs) = false

unfoldable pub is_hub : MetaData → Bool
is_hub x = is_some (item_of x).hub_identifier

unfoldable pub is_collection_hub : MetaData → Bool
unfolding is_hub starts_with
is_collection_hub x =
    is_hub x && map_or (item_of x).context false (starts_with (codes "hub.custom.collection"))

unfoldable pub has_label : MetaData → Text → Bool
unfolding to_lowercase text_eq
has_label x name = any (λ tag. text_eq (to_lowercase tag) (to_lowercase name)) (item_of x).labels

-- `view_count` stays for a show even when it is marked unwatched.
unfoldable pub is_watched : MetaData → Bool
is_watched x =
    (not (is_some i.leaf_count) && map_or i.view_count false (ltb_ℤ (pos 0)))
    || map_or i.viewed_leaf_count false (λ viewed.
      leb_ℤ (unwrap_or i.leaf_count (pos 0)) viewed
      && leb_ℤ viewed (unwrap_or i.leaf_count (pos 0)))
  where
    i : Item
    i = item_of x
