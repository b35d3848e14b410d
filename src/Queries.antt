-- ===== src/Queries.antt =====
-- The query parameters of a request, a multimap that is not part of the repository (`multimap`, and
-- the parsing of the URL): `get` returns the first value, `insert` adds a value behind the others,
-- `remove` drops all, and iterating it (`first_values`) meets each key with its first value.
pub mod Assoc
use replex.Prelude.{◌≡◌, ◌≢◌, Bool, true, if◌then◌else◌, Option, none, some, or_else}
use replex.Prelude.Text.{Text}

pub record Queries : Type 1 where
  pub Map : Type 0
  pub get : Map → Text → Option Text
  pub remove : Map → Text → Map
  pub insert : Map → Text → Text → Map
  pub first_values : Map → Map
  pub get-first_values : (m : Map) (k : Text) → get (first_values m) k ≡ get m k
  pub get-remove_self : (m : Map) (k : Text) → get (remove m k) k ≡ none
  pub get-remove_ne : (m : Map) (k j : Text) → k ≢ j → get (remove m k) j ≡ get m j
  pub get-insert_self : (m : Map) (k v : Text) → get (insert m k v) k ≡ or_else (get m k) (some v)
  pub get-insert_ne : (m : Map) (k j v : Text) → k ≢ j → get (insert m k v) j ≡ get m j

module _ (q : Queries) where
  open q use {
    Map, get, remove, insert, first_values, get-first_values, get-remove_self, get-remove_ne,
    get-insert_self, get-insert_ne,
  }

  -- utils.rs `replace_query`: the request's parameters become the first values of `new`, unless its
  -- URI does not parse as a URL.
  unfoldable pub replace_query : Bool → Map → Map → Map
  replace_query uri_parses new old = if uri_parses then first_values new else old

  pub get-replace_query :
      (new old : Map) (k : Text) → get (replace_query true new old) k ≡ get new k
  unfolding replace_query
  get-replace_query new old k = get-first_values new k

  -- `remove` and then `insert`: the one value of a key.
  unfoldable pub put : Map → Text → Text → Map
  put m k v = insert (remove m k) k v

  pub get-put_self : (m : Map) (k v : Text) → get (put m k v) k ≡ some v
  unfolding put
  get-put_self m k v = rw (get-insert_self (remove m k) k v, get-remove_self m k)

  pub get-put_ne : (m : Map) (k j v : Text) → k ≢ j → get (put m k v) j ≡ get m j
  unfolding put
  get-put_ne m k j v ne = rw (get-insert_ne (remove m k) k j v ne, get-remove_ne m k j ne)
