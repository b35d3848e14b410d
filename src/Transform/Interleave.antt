-- ===== src/Transform/Interleave.antt =====
-- transform/{hub_interleave,library_interleave}.rs: rows of collections with one title become one
-- row, and the collections of one listing become one list, with their items in turn.
pub mod Items
pub mod Keeps
pub mod Hidden
use replex.Prelude.{
  ℕ, zero, suc, ◌+◌, ◌-◌, ◌%◌, ◌^◌, ◌≡◌, ltb, ◌||◌, Bool, true, false, not, Option, none, some,
  List, [], ◌∷◌, ◌++◌, head, length, is_empty, filter, if◌then◌else◌,
}
use replex.Prelude.Int.{ℤ, pos, negsuc}
use replex.Prelude.Text.{Text, codes, text_eq, starts_with}
use replex.Config.{Config}
use replex.Metadata.{MetaData, item_of, with_item, is_collection_hub, has_label, is_watched}
use replex.Metadata.Children.{children, set_children}
use replex.Transform.{
  MediaContainer, Transform, with_items, slot_of, items, children_mut, update_children,
}
use replex.Transform.Hubs.{Collections, has_no_size, is_labelled}

-- `interleave` of itertools, which is not part of the repository: elements of the two in turn, from
-- the first on, and then the rest of the longer one.
pub record Itertools : Type 0 where
  pub interleave : List MetaData → List MetaData → List MetaData
  pub interleave_turn :
      (x y : MetaData) (xs ys : List MetaData)
      → interleave (x ∷ xs) (y ∷ ys) ≡ x ∷ y ∷ interleave xs ys
  pub interleave_left : (xs : List MetaData) → interleave xs [] ≡ xs
  pub interleave_right : (ys : List MetaData) → interleave [] ys ≡ ys

-- `str::replace` with the empty text: `skip` characters are still those of the last match.
unfoldable pub remove_all : Text → ℕ → Text → Text
unfolding starts_with
remove_all pattern skip [] = []
remove_all pattern (suc skip) (c ∷ s) = remove_all pattern skip s
remove_all pattern zero (c ∷ s) =
    let matched = remove_all pattern (length pattern - 1) s in
    let rest = remove_all pattern 0 s in if starts_with pattern (c ∷ s) then matched else c ∷ rest

unfoldable pub collection_part : Text → Text
unfolding remove_all
collection_part key = remove_all (codes "/children") 0 (
    remove_all (codes "/library/collections/") 0
      (remove_all (codes "/hubs/library/collections/") 0 key))

-- utils.rs
unfoldable pub merge_children_keys : Text → Text → Text
unfolding collection_part
merge_children_keys key_left key_right =
    codes "/library/collections/"
    ++ (collection_part key_left ++ (codes "," ++ (collection_part key_right ++ codes "/children")))

-- `MediaContainer::set_children_mut`: with no list in use the value is lost.
unfoldable pub set_children_mut : List MetaData → MediaContainer → MediaContainer
unfolding slot_of children_mut
set_children_mut value c =
    let sized : MediaContainer = record c { size = some (pos (length value)) } in
    if is_empty (children_mut c) then sized else with_items (slot_of c) value sized

module _ (itertools : Itertools) where
  -- The row `hub` goes into the row `v` of the same title, if both have a key.
  unfoldable pub merged : MetaData → MetaData → Option MetaData
  unfolding merge_children_keys children set_children
  merged v hub = elim (item_of v).key [
    | none ↦ none
    | some left_key ↦ elim (item_of hub).key [
      | none ↦ none
      | some right_key ↦
          let keyed =
            with_item v
              (record (item_of v) { key = some (merge_children_keys left_key right_key) }) in
          some (set_children keyed (itertools.interleave (children keyed) (children hub)))
    ]
  ]

  -- What becomes of the rows so far: the first of the same title, by `position`, takes the hub in,
  -- and without one, or where a key is missing, it is pushed.
  unfoldable pub absorb : MetaData → List MetaData → List MetaData
  unfolding merged text_eq
  absorb hub [] = hub ∷ []
  absorb hub (v ∷ vs) =
      let further = absorb hub vs in
      if text_eq (item_of v).title (item_of hub).title
      then elim (merged v hub) [ none ↦ v ∷ (vs ++ hub ∷ []) | some w ↦ w ∷ vs ]
      else v ∷ further

  unfoldable pub add_hub : List MetaData → MetaData → List MetaData
  unfolding has_no_size is_collection_hub absorb
  add_hub new_hubs hub =
      if has_no_size hub
      then new_hubs
      else if not (is_collection_hub hub)
      then new_hubs ++ hub ∷ []
      else absorb hub new_hubs

  unfoldable pub add_hubs : List MetaData → List MetaData → List MetaData
  add_hubs new_hubs [] = new_hubs
  add_hubs new_hubs (hub ∷ hubs) = add_hubs (add_hub new_hubs hub) hubs

  unfoldable pub interleave_hubs : Config → MediaContainer → MediaContainer
  unfolding add_hub add_hubs set_children_mut children_mut
  interleave_hubs config c =
      if not config.interleave then c else set_children_mut (add_hubs [] (children_mut c)) c

  abbrev pub hub_interleave : Config → (S : Type 0) → Transform S
  hub_interleave config S = record {
    filter_metadata = λ x s. true;
    transform_metadata = λ x s. (x, s);
    transform_mediacontainer = interleave_hubs config;
  }

  -- `id as i32` of a `u32`
  abbrev pub as_i32 : ℕ → ℤ
  as_i32 n = if ltb n (2 ^ 31) then pos n else negsuc (2 ^ 32 - 1 - n)

  module _ (config : Config) (plex : Collections) (offset limit : ℤ) where
    -- The items of one collection; `none` skips it.
    unfoldable pub items_of : ℕ → Option (List MetaData)
    unfolding children_mut filter is_watched has_label
    items_of id = elim (plex.get_collection (as_i32 id)) [
      | none ↦ none
      | some collection ↦ elim (plex.get_collection_children (pos id) offset limit) [
        | none ↦ none
        | some c ↦
            if config.exclude_watched || is_labelled collection (codes "REPLEX_EXCLUDE_WATCHED")
            then some (children_mut (update_children (filter (λ x. not (is_watched x))) c))
            else some (children_mut c)
      ]
    ]

    abbrev joined : List MetaData → List MetaData → List MetaData
    joined [] new = new
    joined (x ∷ xs) new = itertools.interleave (x ∷ xs) new

    -- The items and their number, which wraps as an `i32` when it is written.
    unfoldable pub collect_items : List ℕ → List MetaData → ℕ → List MetaData × ℕ
    unfolding items_of
    collect_items [] children total_size = (children, total_size)
    collect_items (id ∷ ids) children total_size = elim (items_of id) [
      | none ↦ collect_items ids children total_size
      | some new ↦ collect_items ids (joined children new) (total_size + length new)
    ]

    -- The response, and the `totalSize` it gets.
    unfoldable pub library_interleave : List ℕ → MediaContainer → MediaContainer × Option ℤ
    unfolding collect_items
    library_interleave collection_ids c =
        let r = collect_items collection_ids [] 0 in
        if not config.interleave
        then (c, none)
        else (record c { metadata = r.0 }, some (as_i32 (r.1 % 2 ^ 32)))
