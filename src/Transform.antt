-- ===== src/Transform.antt =====
-- transform/mod.rs and models.rs: a response (`MediaContainer`) and the loop that runs transforms
-- over its items (`TransformBuilder::apply_to`).
pub mod Loop
pub mod Pass
pub mod Policy
pub mod Hubs
pub mod Chain
pub mod Interleave
pub mod Style
use Prim.Native.Nat.{◌+◌, ◌-◌, ◌^◌, min}
use replex.Prelude.{
  ℕ, zero, suc, Bool, true, false, Option, none, some, List, [], ◌∷◌, length, get_elem?, is_empty,
  is_some, if◌then◌else◌,
}
use replex.Prelude.Int.{ℤ, pos}
use replex.Metadata.{MetaData}

-- The lists of items of a response, and its size.
pub record MediaContainer : Type 0 where
  pub size : Option ℤ
  pub metadata : List MetaData
  pub hub : List MetaData
  pub video : List MetaData
  pub directory : List MetaData

pub data Slot : Type 0 where
  in_metadata : Slot
  in_hub : Slot
  in_video : Slot
  in_directory : Slot

abbrev pub items : Slot → MediaContainer → List MetaData
items in_metadata c = c.metadata
items in_hub c = c.hub
items in_video c = c.video
items in_directory c = c.directory

abbrev pub with_items : Slot → List MetaData → MediaContainer → MediaContainer
with_items in_metadata xs c = record c { metadata = xs }
with_items in_hub xs c = record c { hub = xs }
with_items in_video xs c = record c { video = xs }
with_items in_directory xs c = record c { directory = xs }

-- The list that `children_mut` refers to.
unfoldable pub slot_of : MediaContainer → Slot
slot_of c =
    if is_empty c.metadata
    then (if is_empty c.hub
        then (if is_empty c.video
            then (if is_empty c.directory then in_metadata else in_directory)
            else in_video)
        else in_hub)
    else in_metadata

unfoldable pub children_mut : MediaContainer → List MetaData
unfolding slot_of
children_mut c = items (slot_of c) c

-- A change through the reference that `children_mut` returns.
unfoldable pub update_children : (List MetaData → List MetaData) → MediaContainer → MediaContainer
unfolding slot_of
update_children f c = with_items (slot_of c) (f (items (slot_of c) c)) c

-- `Vec::remove`, and an assignment through an index.
unfoldable pub remove_at : ℕ → List MetaData → List MetaData
remove_at i [] = []
remove_at zero (x ∷ xs) = xs
remove_at (suc i) (x ∷ xs) = x ∷ remove_at i xs

unfoldable pub set_at : ℕ → MetaData → List MetaData → List MetaData
set_at i y [] = []
set_at zero y (x ∷ xs) = y ∷ xs
set_at (suc i) y (x ∷ xs) = x ∷ set_at i y xs

-- As many turns as the response has items.
abbrev pub fuel_of : MediaContainer → ℕ
fuel_of c = length c.metadata + (length c.hub + (length c.video + length c.directory))

-- `i64::try_from(len).unwrap_or(i64::MAX)`
unfoldable pub resize : MediaContainer → MediaContainer
unfolding children_mut
resize c =
    if is_some c.size
    then record c { size = some (pos (min (length (children_mut c)) (2 ^ 63 - 1))) }
    else c

module _ (S : Type 0) where
  -- A transform: whether an item stays, what it becomes, and what the response becomes. `S` is what
  -- it shares with the rest of the program.
  pub record Transform : Type 0 where
    pub filter_metadata : MetaData → S → Bool
    pub transform_metadata : MetaData → S → MetaData × S
    pub transform_mediacontainer : MediaContainer → MediaContainer

  -- One turn of the loop over the item at an index: the next index, the response and the state.
  unfoldable pub turn : Transform → ℕ → MediaContainer → S → MetaData → ℕ × MediaContainer × S
  unfolding update_children remove_at set_at
  turn t i c s x =
      let r = t.transform_metadata x s in
      if t.filter_metadata x s
      then (suc i, update_children (set_at i r.0) c, r.1)
      else (i, update_children (remove_at i) c, s)

  -- The loop from an index on. It takes a unit of fuel for each item.
  unfoldable pub each_item : Transform → ℕ → ℕ → MediaContainer → S → MediaContainer × S
  unfolding turn children_mut
  each_item t zero i c s = (c, s)
  each_item t (suc fuel) i c s = elim (get_elem? (children_mut c) i) [
    | none ↦ (c, s)
    | some x ↦ let next = turn t i c s x in each_item t fuel next.0 next.1 next.2
  ]

  unfoldable pub apply_all : List Transform → MediaContainer → S → MediaContainer × S
  unfolding each_item
  apply_all [] c s = (c, s)
  apply_all (t ∷ ts) c s =
      let r = each_item t (fuel_of c) 0 c s in apply_all ts (t.transform_mediacontainer r.0) r.1

  unfoldable pub apply_to : List Transform → MediaContainer → S → MediaContainer × S
  unfolding apply_all resize
  apply_to ts c s = let r = apply_all ts c s in (resize r.0, r.1)
