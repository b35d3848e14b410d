-- ===== src/Metadata/Forest.antt =====
-- Lists of nodes: their laws, the versions and the nodes below them.
use replex.Prelude.{◌≡◌, refl, ap, ◌++◌, Bool, List, [], ◌∷◌, if◌then◌else◌, filter, arith}
use replex.Media.{Media}
use replex.Metadata.{MetaData, node, MetaList, nil, cons, to_list, of_list}

pub to_list-of_list : (xs : List MetaData) → to_list (of_list xs) ≡ xs
to_list-of_list [] = refl
to_list-of_list (x ∷ xs) = ap (λ t. x ∷ t) (to_list-of_list xs)

-- `Vec::retain`
unfoldable pub retain : (MetaData → Bool) → MetaList → MetaList
retain p nil = nil
retain p (cons c cs) = let rest = retain p cs in if p c then cons c rest else rest

pub to_list-retain :
    (p : MetaData → Bool) (cs : MetaList) → to_list (retain p cs) ≡ filter p (to_list cs)
unfolding retain filter
to_list-retain p nil = refl
to_list-retain p (cons c cs) = ground (arith, to_list-retain p cs)

-- Every version in a node, its own first.
unfoldable mutual
  pub all_media : MetaData → List Media
  all_media (node i m d v) = i.media ++ (media_below m ++ (media_below d ++ media_below v))

  pub media_below : MetaList → List Media
  media_below nil = []
  media_below (cons c cs) = all_media c ++ media_below cs

-- Every node below a node.
unfoldable mutual
  pub descendants : MetaData → List MetaData
  descendants (node i m d v) = nodes m ++ (nodes d ++ nodes v)

  pub nodes : MetaList → List MetaData
  nodes nil = []
  nodes (cons c cs) = c ∷ (descendants c ++ nodes cs)

pub filter-append {ℓ} :
    {A : Type ℓ} (p : A → Bool) (xs ys : List A) → filter p (xs ++ ys) ≡ filter p xs ++ filter p ys
unfolding filter
filter-append p [] ys = refl
filter-append p (x ∷ xs) ys = ground (arith, filter-append p xs ys)
