-- ===== src/Transform/Style.antt =====
-- transform/{hub_style,media_style,collection_style}.rs and `is_hero` of models.rs: rows that are
-- shown as heroes, in the form that each client needs.
pub mod Hidden
use replex.Prelude.{
  ◌&&◌, ◌||◌, Bool, true, false, not, Option, none, some, List, [], ◌∷◌, ◌++◌, map, head, drop,
  length, any, find, is_empty, map_or, or_else, and_then, unwrap_or, if◌then◌else◌,
}
use replex.Prelude.Int.{ℤ}
use replex.Prelude.Text.{Text, codes, text_eq, starts_with, contains, to_lowercase, is_text}
use replex.Artwork.{Image, Meta, hero_meta, upsert_cover_art}
use replex.Metadata.{Item, MetaData, item_of, with_item, is_hub, is_collection_hub, has_label}
use replex.Metadata.Children.{children, set_children}
use replex.Transform.{MediaContainer, Transform, children_mut}
use replex.Transform.Interleave.{remove_all, set_children_mut}
use replex.Transform.Hubs.{Collections, get_collection_id_from_hub}

pub data Platform : Type 0 where
  android : Platform
  ios : Platform
  tv_os : Platform
  safari : Platform
  chrome : Platform
  roku_os : Platform
  web_browser : Platform
  generic : Platform

-- The part of `PlexContext` that shapes hub responses.
pub record HubContext : Type 0 where
  pub platform : Option Platform
  pub product : Option Text
  pub device : Option Text
  pub model : Option Text
  pub token : Option Text
  pub forwarded_host : Option Text
  pub host : Option Text
  pub forwarded_proto : Option Text
  pub exclude_continue_watching : Bool
  pub count : Option ℤ

pub record ClientHeroStyle : Type 0 where
  pub enabled : Bool
  pub include_meta : Bool
  pub kind : Text
  pub style : Option Text
  pub child_type : Option Text
  pub cover_art_as_thumb : Bool
  pub cover_art_as_art : Bool

pub data DeviceType : Type 0 where
  tv : DeviceType
  mobile : DeviceType

unfoldable pub device_type : HubContext → DeviceType
unfolding to_lowercase contains
device_type context =
    let product = to_lowercase (unwrap_or context.product []) in
    let device = to_lowercase (unwrap_or context.device []) in
    let model = to_lowercase (unwrap_or context.model []) in
    if contains (codes "(tv)") product
      || (contains (codes "apple tv") product
          || (contains (codes "android tv") product
              || (contains (codes "apple tv") device || contains (codes "appletv") model)))
    then tv
    else mobile

abbrev pub default_style : ClientHeroStyle
default_style = record {
  enabled = true;
  include_meta = true;
  kind = codes "mixed";
  style = some (codes "hero");
  child_type = none;
  cover_art_as_thumb = true;
  cover_art_as_art = false;
}

abbrev pub android_style : DeviceType → ClientHeroStyle
android_style tv = record default_style {
  style = some (codes "hero");
  kind = codes "clip";
  child_type = some (codes "clip");
  cover_art_as_art = true;
  cover_art_as_thumb = true;
}
android_style mobile = record default_style {
  style = none;
  kind = codes "clip";
  child_type = some (codes "clip");
  cover_art_as_art = true;
}

abbrev pub roku : ClientHeroStyle
roku = record default_style { style = some (codes "hero") }

abbrev pub web : ClientHeroStyle
web = record default_style {
  include_meta = true;
  cover_art_as_art = true;
  cover_art_as_thumb = true;
}

abbrev pub ios_style : ClientHeroStyle
ios_style = record default_style { cover_art_as_art = true; cover_art_as_thumb = false }

abbrev pub tvos_style : ClientHeroStyle
tvos_style = record default_style { cover_art_as_art = true; cover_art_as_thumb = false }

abbrev pub other_style : Text → ClientHeroStyle
other_style product =
    if text_eq (to_lowercase product) (codes "plex web") then web else default_style

-- `ClientHeroStyle::from_context`
unfoldable pub from_context : HubContext → ClientHeroStyle
unfolding device_type to_lowercase text_eq
from_context context = elim (unwrap_or context.platform generic) [
  | android ↦ android_style (device_type context)
  | roku_os ↦ roku
  | ios ↦ ios_style
  | tv_os ↦ tvos_style
  | _ ↦ other_style (unwrap_or context.product [])
]

-- `MetaData::get_label_value`, for a prefix in ASCII: the matched part of a tag is as long as the
-- prefix.
unfoldable pub get_label_value : List Text → Text → Option Text
unfolding to_lowercase starts_with
get_label_value [] prefix = none
get_label_value (tag ∷ tags) prefix =
    let search = to_lowercase (prefix ++ codes "::") in
    let rest = get_label_value tags prefix in
    if starts_with search (to_lowercase tag) then some (drop (length search) tag) else rest

-- The id of an episode is that of its show, if it has one.
abbrev guid_of : Item → Option Text
guid_of i = and_then i.guid (λ guid.
    if starts_with (codes "plex://episode") guid
    then or_else i.parent_guid (some guid)
    else some guid)

-- The address of the artwork, unless something for it is missing.
unfoldable pub cover_art : HubContext → Item → Option Text
unfolding get_label_value remove_all starts_with
cover_art options i = or_else (get_label_value i.labels (codes "REPLEXHEROURL")) (
    and_then (guid_of i) (λ guid. and_then options.token (λ token.
      and_then (or_else options.forwarded_host options.host) (λ host. some (
        unwrap_or options.forwarded_proto (codes "http")
        ++ (codes "://"
            ++ (host
                ++ (codes "/replex/image/hero/"
                    ++ (remove_all (codes "plex://") 0 guid
                        ++ (codes "?X-Plex-Token=" ++ token))))))))))

unfoldable pub with_cover_art : ClientHeroStyle → Text → Item → Item
unfolding upsert_cover_art
with_cover_art style_def url i =
    let j : Item = record i { images = upsert_cover_art i.images i.title url } in
    let k : Item = if style_def.cover_art_as_art then record j { art = some url } else j in
    if style_def.cover_art_as_thumb then record k { thumb = some url } else k

-- `MediaStyleTransform` with the hero style, on one item.
unfoldable pub media_style : HubContext → Item → Item
unfolding from_context cover_art with_cover_art
media_style options i =
    let style_def = from_context options in
    let typed : Item = record i { kind = unwrap_or style_def.child_type i.kind } in
    elim (cover_art options typed) [ none ↦ typed | some url ↦ with_cover_art style_def url typed ]

-- A child of a hero row.
unfoldable pub hero_child : HubContext → MetaData → MetaData
unfolding from_context media_style
hero_child options x =
    let i = item_of x in
    let typed : Item = record i { kind = unwrap_or (from_context options).child_type i.kind } in
    with_item x (media_style options typed)

module _ (hero_rows : Option (List Text)) (plex : Collections) where
  -- `is_hero`; `none` is an error.
  unfoldable pub is_hero : MetaData → Option Bool
  unfolding is_hub is_text any contains is_collection_hub get_collection_id_from_hub has_label
  is_hero x =
      let i = item_of x in
      let in_rows = map_or hero_rows false (λ rows.
        map_or i.hub_identifier false
          (λ id. any (λ row. not (is_empty row) && contains row id) rows)) in
      if not (is_hub x)
      then some false
      else if is_text i.style (codes "hero")
      then some true
      else if in_rows
      then some true
      else if not (is_collection_hub x)
      then some false
      else elim (get_collection_id_from_hub x) [
        | none ↦ some false
        | some id ↦ and_then (plex.get_collection id) (λ collection_details. some (
            map_or (head (children_mut collection_details)) false
              (λ item. has_label item (codes "REPLEXHERO"))))
      ]

  unfoldable pub style_hub : HubContext → MetaData → MetaData
  unfolding is_hub is_hero from_context hero_child children set_children
  style_hub options x =
      let style = from_context options in
      let i = item_of x in
      let styled : Item = record i {
        style = style.style;
        kind = style.kind;
        meta = if style.include_meta then some hero_meta else i.meta;
      } in
      if is_hub x && unwrap_or (is_hero x) false
      then set_children (with_item x styled) (map (hero_child options) (children x))
      else x

  abbrev pub hub_style : HubContext → (S : Type 0) → Transform S
  hub_style options S = record {
    filter_metadata = λ x s. true;
    transform_metadata = λ x s. (style_hub options x, s);
    transform_mediacontainer = λ c. c;
  }

  -- `CollectionStyleTransform`: the response, and the `meta` that it gets.
  unfoldable pub collection_style :
      HubContext → List ℤ → MediaContainer → MediaContainer × Option Meta
  unfolding has_label hero_child children_mut set_children_mut
  collection_style options [] c = (c, none)
  collection_style options (id ∷ ids) c =
      let is_hero_collection = map_or (plex.get_collection id) false (λ details.
        map_or (head (children_mut details)) false (λ x. has_label x (codes "REPLEXHERO"))) in
      if is_hero_collection
      then (set_children_mut (map (hero_child options) (children_mut c)) c, some hero_meta)
      else (c, none)
