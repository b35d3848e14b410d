-- ===== src/Transform/Interleave/Items.antt =====
-- The items of rows: what setting them gives back, and the items of several rows.
use mathlib.Core.List.{Permᴰ}
use mathlib.Core.List.Permᴰ
use replex.Prelude.{◌≡◌, refl, sym, ap, ◌∙◌, false, List, [], ◌∷◌, ◌++◌, arith, is_empty}
use replex.Metadata.{Item, MetaData, node, nil, cons, with_item, to_list, of_list}
use replex.Metadata.Children.{children, set_children}

pub to_list-of_list : (xs : List MetaData) → to_list (of_list xs) ≡ xs
to_list-of_list [] = refl
to_list-of_list (x ∷ xs) = ap (λ t. x ∷ t) (to_list-of_list xs)

-- A node with items.
abbrev pub HasItems : MetaData → Type 0
HasItems x = is_empty (children x) ≡ false

pub children-with_item : (x : MetaData) (i : Item) → children (with_item x i) ≡ children x
unfolding children
children-with_item (node j m d v) i = refl

pub children-set_children :
    (x : MetaData) (value : List MetaData)
    → HasItems x
    → is_empty value ≡ false
    → children (set_children x value) ≡ value
unfolding children set_children
children-set_children (node i (cons c m) d v) (y ∷ value) h k =
    ap (λ t. y ∷ t) (to_list-of_list value)
children-set_children (node i nil (cons c d) v) (y ∷ value) h k =
    ap (λ t. y ∷ t) (to_list-of_list value)
children-set_children (node i nil nil (cons c v)) (y ∷ value) h k =
    ap (λ t. y ∷ t) (to_list-of_list value)
children-set_children (node i nil nil nil) value h k = absurd (ground arith)
children-set_children x [] h k = absurd (ground arith)

-- The items of all the rows.
abbrev pub all_items : List MetaData → List MetaData
all_items [] = []
all_items (x ∷ xs) = children x ++ all_items xs

pub append_assoc : (xs ys zs : List MetaData) → (xs ++ ys) ++ zs ≡ xs ++ (ys ++ zs)
append_assoc [] ys zs = refl
append_assoc (x ∷ xs) ys zs = ap (λ t. x ∷ t) (append_assoc xs ys zs)

pub all_items-append : (xs ys : List MetaData) → all_items (xs ++ ys) ≡ all_items xs ++ all_items ys
all_items-append [] ys = refl
all_items-append (x ∷ xs) ys =
    ap (λ t. children x ++ t) (all_items-append xs ys)
    ∙ sym (append_assoc (children x) (all_items xs) (all_items ys))

pub append_nil : (xs : List MetaData) → xs ++ [] ≡ xs
append_nil [] = refl
append_nil (x ∷ xs) = ap (λ t. x ∷ t) (append_nil xs)

pub Permᴰ-eq : {xs ys : List MetaData} → xs ≡ ys → Permᴰ xs ys
Permᴰ-eq {xs} e = rw (← e) (Permᴰ.refl xs)
