-- ===== src/Cache.antt =====
-- What the program relies on of the concurrent caches that it uses (moka), which are not part of
-- the repository: an entry may vanish at any time (capacity, age), and what is found was inserted.
pub mod Assoc
use replex.Prelude.{◌≡◌, ◌⊎◌, Option, none, some}

pub record Cache (K V : Type 0) : Type 1 where
  pub Store : Type 0
  pub empty : Store
  pub lookup : Store → K → Option V
  pub insert : Store → K → V → Store
  pub invalidate : Store → K → Store
  pub invalidate_all : Store → Store
  pub lookup-empty : (k : K) → lookup empty k ≡ none
  pub lookup-insert :
      (s : Store) (k j : K) (v w : V)
      → lookup (insert s k v) j ≡ some w
      → ((k ≡ j) × (w ≡ v)) ⊎ (lookup s j ≡ some w)
  pub lookup-invalidate_self : (s : Store) (k : K) → lookup (invalidate s k) k ≡ none
  pub lookup-invalidate :
      (s : Store) (k j : K) (w : V) → lookup (invalidate s k) j ≡ some w → lookup s j ≡ some w
  pub lookup-invalidate_all : (s : Store) (k : K) → lookup (invalidate_all s) k ≡ none
