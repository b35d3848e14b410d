-- ===== src/Queries/Assoc.antt =====
-- A list of pairs has the properties that `Queries` asks for.
use replex.Prelude.{
  ◌≡◌, ◌∙◌, refl, ◌≢◌, Option, none, some, List, [], ◌∷◌, ◌++◌, arith, or_else, if◌then◌else◌,
  Bool-cases, inl, inr,
}
use replex.Prelude.Text.{Text, text_eq, text_eq_iff, text_eq_refl}
use replex.Queries.{Queries}

unfoldable pub get_first : List (Text × Text) → Text → Option Text
get_first [] k = none
get_first ((j, v) ∷ m) k = if text_eq j k then some v else get_first m k

unfoldable pub remove_all : List (Text × Text) → Text → List (Text × Text)
remove_all [] k = []
remove_all ((j, v) ∷ m) k = let rest = remove_all m k in if text_eq j k then rest else (j, v) ∷ rest

-- Each key with its first value.
unfoldable pub first_pairs : List (Text × Text) → List (Text × Text)
unfolding remove_all
first_pairs [] = []
first_pairs ((j, v) ∷ m) = (j, v) ∷ remove_all (first_pairs m) j

get-remove_self : (m : List (Text × Text)) (k : Text) → get_first (remove_all m k) k ≡ none
unfolding get_first remove_all
get-remove_self [] k = refl
get-remove_self ((j, v) ∷ m) k = ground (arith, get-remove_self m k)

get-remove_ne :
    (m : List (Text × Text)) (k j : Text) → k ≢ j → get_first (remove_all m k) j ≡ get_first m j
unfolding get_first remove_all
get-remove_ne [] k j ne = refl
get-remove_ne ((i, v) ∷ m) k j ne =
    ground (arith, text_eq_iff i k, text_eq_iff i j, get-remove_ne m k j ne)

get-first_pairs : (m : List (Text × Text)) (k : Text) → get_first (first_pairs m) k ≡ get_first m k
unfolding get_first first_pairs
get-first_pairs [] k = refl
get-first_pairs ((j, v) ∷ m) k = elim (Bool-cases (text_eq j k)) [
  | inl t ↦ rw t
  | inr f ↦ rw f (
      get-remove_ne (first_pairs m) j k (λ e. ground (arith, text_eq_iff j k))
      ∙ get-first_pairs m k)
]

get-add :
    (m : List (Text × Text)) (k j v : Text)
    → get_first (m ++ (k, v) ∷ []) j
      ≡ or_else (get_first m j) (if text_eq k j then some v else none)
unfolding get_first
get-add [] k j v = refl
get-add ((i, w) ∷ m) k j v = ground (arith, get-add m k j v)

get-add_self :
    (m : List (Text × Text)) (k v : Text)
    → get_first (m ++ (k, v) ∷ []) k ≡ or_else (get_first m k) (some v)
get-add_self m k v = rw (get-add m k k v, text_eq_refl k)

get-add_ne :
    (m : List (Text × Text)) (k j v : Text) → k ≢ j → get_first (m ++ (k, v) ∷ []) j ≡ get_first m j
get-add_ne m k j v ne = ground (arith, get-add m k j v, text_eq_iff k j)

unfoldable pub pairs : Queries
unfolding get_first remove_all first_pairs get-first_pairs get-add get-remove_self get-remove_ne
    get-add_self get-add_ne
pairs = record {
  Map = List (Text × Text);
  get = get_first;
  remove = remove_all;
  insert = λ m k v. m ++ (k, v) ∷ [];
  first_values = first_pairs;
  get-first_values = get-first_pairs;
  get-remove_self = get-remove_self;
  get-remove_ne = get-remove_ne;
  get-insert_self = get-add_self;
  get-insert_ne = get-add_ne;
}
