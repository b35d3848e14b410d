-- ===== src/Metadata/Children.antt =====
-- `children`, `children_mut` and `set_children` of a node: which of its lists each of them takes.
use Prim.Native.Nat.{◌-◌, ◌^◌, min}
use replex.Prelude.{List, length, some, if◌then◌else◌}
use replex.Prelude.Int.{pos}
use replex.Metadata.{Item, MetaData, node, MetaList, nil, to_list, of_list, no_nodes}

unfoldable pub children_mut : MetaData → MetaList
children_mut (node i m d v) =
    if no_nodes m then (if no_nodes v then (if no_nodes d then m else d) else v) else m

-- A change through the reference that `children_mut` returns.
unfoldable pub update_children : (MetaList → MetaList) → MetaData → MetaData
update_children f (node i m d v) =
    if no_nodes m
    then (if no_nodes v
        then (if no_nodes d then node i (f m) d v else node i m (f d) v)
        else node i m d (f v))
    else node i (f m) d v

unfoldable pub children : MetaData → List MetaData
children (node i m d v) =
    to_list (if no_nodes m then (if no_nodes d then (if no_nodes v then nil else v) else d) else m)

-- `i32::try_from(len).unwrap_or(i32::MAX)`
abbrev sized : Item → List MetaData → Item
sized i value = record i { size = some (pos (min (length value) (2 ^ 31 - 1))) }

-- With no list in use the value is lost, and only the size is set.
unfoldable pub set_children : MetaData → List MetaData → MetaData
set_children (node i m d v) value =
    if no_nodes m
    then (if no_nodes d
        then (if no_nodes v
            then node (sized i value) m d v
            else node (sized i value) m d (of_list value))
        else node (sized i value) m (of_list value) v)
    else node (sized i value) (of_list value) d v
