-- ===== src/Playback/Edits.antt =====
-- Changes of a request's parameters, key by key, and the keys that they leave alone.
use replex.Prelude.{◌≡◌, refl, ◌∙◌, ◌≢◌, Bool, true, not, ◌&&◌, List, [], ◌∷◌, arith, &&_parts}
use replex.Prelude.Text.{Text, text_eq, text_eq_refl}
use replex.Queries.{Queries, put, get-put_ne}

-- `set k v` is `remove` of the key and `insert`.
pub data Edit : Type 0 where
  set : Text → Text → Edit
  drop_key : Text → Edit

abbrev key_of : Edit → Text
key_of (set k v) = k
key_of (drop_key k) = k

module _ (q : Queries) where
  open q use {Map, get, remove, get-remove_ne}

  abbrev pub edit : Map → Edit → Map
  edit m (set k v) = put q m k v
  edit m (drop_key k) = remove m k

  -- One after another.
  unfoldable pub edited : Map → List Edit → Map
  edited m [] = m
  edited m (e ∷ es) = edited (edit m e) es

  unfoldable pub spares : Text → List Edit → Bool
  spares k [] = true
  spares k (e ∷ es) = not (text_eq (key_of e) k) && spares k es

  ne_of_text_eq : (j k : Text) → not (text_eq j k) ≡ true → j ≢ k
  ne_of_text_eq j k h e = let same = text_eq_refl k in ground (arith, same)

  get-edit : (m : Map) (e : Edit) (k : Text) → key_of e ≢ k → get (edit m e) k ≡ get m k
  get-edit m (set j v) k ne = get-put_ne q m j k v ne
  get-edit m (drop_key j) k ne = get-remove_ne m j k ne

  -- A key that no change names keeps its first value.
  pub get-edited :
      (m : Map) (es : List Edit) (k : Text) → spares k es ≡ true → get (edited m es) k ≡ get m k
  unfolding edited spares
  get-edited m [] k h = refl
  get-edited m (e ∷ es) k h =
      let both = &&_parts (not (text_eq (key_of e) k)) (spares k es) h in
      get-edited (edit m e) es k both.1 ∙ get-edit m e k (ne_of_text_eq (key_of e) k both.0)
