-- ===== src/Transform/Hubs.antt =====
-- transform/{restrictions,hub_watched,hub_limit,hub_section_directory,user_state,hub_key}.rs: the
-- transforms of the rows (hubs) of a home screen that look at one row at a time.
pub mod Hidden
use replex.Prelude.{
  ◌&&◌, ◌||◌, ◌==◌, ◌-◌, ◌^◌, ℕ, Bool, true, false, not, Option, none, some, List, [], ◌∷◌, ◌++◌,
  head, take, get_elem?, filter, any, is_empty, is_some, map_or, or_else, and_then, unwrap_or,
  if◌then◌else◌,
}
use replex.Prelude.Int.{ℤ, pos, negsuc, leb_ℤ}
use replex.Prelude.Text.{Text, codes, text_eq, starts_with, split}
use replex.Prelude.Text.Decimal.{parse_i64}
use replex.Config.{Config}
use replex.Metadata.{
  Item, MetaData, node, MetaList, nil, cons, item_of, with_item, of_list, is_hub, is_collection_hub,
  has_label, is_watched,
}
use replex.Metadata.Children.{update_children, children, set_children}
use replex.Metadata.Forest.{retain}
use replex.Transform.{MediaContainer, Transform, children_mut}

-- What Plex says of collections through the client's cache (`get_cached`), while one response is
-- transformed; `none` is an error. The first is by section, the others by collection.
pub record Collections : Type 0 where
  pub get_section_collections : ℤ → Option MediaContainer
  pub get_collection : ℤ → Option MediaContainer
  pub get_collection_children : ℤ → ℤ → ℤ → Option MediaContainer

-- `next_back` of the pieces: there always is one.
abbrev last_piece : List Text → Option Text
last_piece [] = none
last_piece (p ∷ []) = some p
last_piece (p ∷ q ∷ ps) = last_piece (q ∷ ps)

-- `str::parse::<i32>`
abbrev parse_i32 : Text → Option ℤ
parse_i32 s =
    and_then (parse_i64 s)
      (λ n. if leb_ℤ (negsuc (2 ^ 31 - 1)) n && leb_ℤ n (pos (2 ^ 31 - 1)) then some n else none)

-- utils.rs
unfoldable pub get_collection_id_from_hub : MetaData → Option ℤ
unfolding split parse_i64
get_collection_id_from_hub hub =
    and_then (item_of hub).hub_identifier
      (λ identifier. and_then (last_piece (split b'.' identifier)) parse_i32)

-- `size.unwrap_or_default() == 0`
unfoldable pub has_no_size : MetaData → Bool
has_no_size x = map_or (item_of x).size true (λ n. leb_ℤ (pos 0) n && leb_ℤ n (pos 0))

-- The section of a collection hub.
unfoldable pub section_of : MetaData → Option ℤ
unfolding split parse_i64
section_of x = or_else (item_of x).library_section_id (
    and_then (item_of x).hub_identifier
      (λ identifier. and_then (get_elem? (split b'.' identifier) 2) parse_i64))

abbrev rating_keys : List MetaData → List Text
rating_keys [] = []
rating_keys (x ∷ xs) = elim (item_of x).rating_key [
  | none ↦ rating_keys xs
  | some k ↦ k ∷ rating_keys xs
]

-- Whether a collection hub is one of the custom collections of its section.
unfoldable pub is_custom : MetaData → MediaContainer → Bool
unfolding split any text_eq children_mut
is_custom x collections =
    let ids = rating_keys (children_mut collections) in
    map_or (and_then (item_of x).hub_identifier (λ identifier. last_piece (split b'.' identifier)))
      true (λ id. any (λ candidate. text_eq candidate id) ids)

-- A transform that leaves the response as a whole.
abbrev per_item : (S : Type 0) → (MetaData → Bool) → (MetaData → MetaData) → Transform S
per_item S keeps change = record {
  filter_metadata = λ x s. keeps x;
  transform_metadata = λ x s. (change x, s);
  transform_mediacontainer = λ c. c;
}

-- The labels of a collection, its first item.
abbrev pub is_labelled : MediaContainer → Text → Bool
is_labelled collection name = map_or (head collection.metadata) false (λ x. has_label x name)

module _ (config : Config) (plex : Collections) where
  unfoldable pub keeps_hub : MetaData → Bool
  unfolding is_hub is_collection_hub has_no_size section_of is_custom
  keeps_hub x =
      if not config.hub_restrictions
      then true
      else if is_hub x && not (is_collection_hub x)
      then true
      else if not (is_hub x)
      then true
      else if has_no_size x
      then false
      else map_or (and_then (section_of x) plex.get_section_collections) true (is_custom x)

  abbrev pub hub_restriction : (S : Type 0) → Transform S
  hub_restriction S = per_item S keeps_hub (λ x. x)

  -- `MetaData::exclude_watched`; `none` is an error.
  unfoldable pub exclude_watched : MetaData → Option Bool
  unfolding is_collection_hub get_collection_id_from_hub has_label
  exclude_watched x =
      if not (is_collection_hub x)
      then some config.exclude_watched
      else elim (get_collection_id_from_hub x) [
        | none ↦ some config.exclude_watched
        | some id ↦ and_then (plex.get_collection id) (λ collection.
            some
              (config.exclude_watched || is_labelled collection (codes "REPLEX_EXCLUDE_WATCHED")))
      ]

  unfoldable pub drop_watched : MetaData → MetaData
  unfolding is_hub exclude_watched is_watched update_children retain
  drop_watched x =
      if is_hub x && unwrap_or (exclude_watched x) false
      then update_children (retain (λ c. not (is_watched c))) x
      else x

  abbrev pub hub_watched : (S : Type 0) → Transform S
  hub_watched S = per_item S (λ x. true) drop_watched

module _ (config : Config) where
  abbrev pub without_state : Item → Item
  without_state i =
      let j : Item =
        if config.disable_user_state then record i { user_state = some false } else i in
      if config.disable_leaf_count then record j { leaf_count = none } else j

  unfoldable pub each_without_state : MetaList → MetaList
  each_without_state nil = nil
  each_without_state (cons c cs) =
      cons (with_item c (without_state (item_of c))) (each_without_state cs)

  -- With both settings off the two branches change nothing, as the early return.
  unfoldable pub hide_state : MetaData → MetaData
  unfolding is_hub update_children each_without_state
  hide_state x =
      if not config.disable_user_state && not config.disable_leaf_count
      then x
      else if is_hub x
      then update_children each_without_state x
      else with_item x (without_state (item_of x))

  abbrev pub user_state : (S : Type 0) → Transform S
  user_state S = per_item S (λ x. true) hide_state

unfoldable pub point_to_replex : MetaData → MetaData
unfolding is_hub starts_with
point_to_replex x =
    let i = item_of x in
    elim i.key [
      | none ↦ x
      | some old_key ↦
          if is_hub x && not (starts_with (codes "/replex") old_key)
          then with_item x (record i {
            key = some (codes "/replex/" ++ (unwrap_or i.style (codes "shelf") ++ old_key));
          })
          else x
    ]

abbrev pub hub_key : (S : Type 0) → Transform S
hub_key S = per_item S (λ x. true) point_to_replex

-- An `i32` as a `usize`: a negative one becomes huge.
abbrev pub as_usize : ℤ → ℕ
as_usize (pos n) = n
as_usize (negsuc n) = 2 ^ 64 - 1 - n

unfoldable pub limit_children : ℤ → MetaData → MetaData
unfolding is_collection_hub children set_children
limit_children limit x =
    if is_collection_hub x then set_children x (take (as_usize limit) (children x)) else x

abbrev pub hub_children_limit : ℤ → (S : Type 0) → Transform S
hub_children_limit limit S = per_item S (λ x. true) (limit_children limit)

unfoldable pub directory_to_video : MetaData → MetaData
unfolding is_collection_hub children
directory_to_video (node i m nil v) = node i m nil v
directory_to_video (node i m (cons c cs) v) =
    let x = node i m (cons c cs) v in
    if is_collection_hub x then node i m nil (of_list (children x)) else x

abbrev pub hub_section_directory : (S : Type 0) → Transform S
hub_section_directory S = per_item S (λ x. true) directory_to_video
