-- ===== src/Metadata/Filter.antt =====
-- transform/resolution_policy.rs: the recursion over nested nodes that strips versions, and what it
-- leaves: exactly the permitted versions, and no playable node without one.
pub mod Laws
use Prim.Native.Nat.{◌+◌}
use replex.Prelude.{ℕ, ◌||◌, ◌&&◌, Bool, true, false, not, List, [], ◌∷◌, is_empty, filter, length}
use replex.Prelude.Text.{Text, codes, text_eq}
use replex.Policy.Entries.{ResolutionPolicy}
use replex.Policy.Classify.{media_allowed}
use replex.Metadata.{Item, MetaData, node, MetaList, nil, cons, item_of, no_nodes}
use replex.Metadata.Forest.{retain}

abbrev pub has_nested : MetaData → Bool
has_nested (node i m d v) = not (no_nodes m) || (not (no_nodes d) || not (no_nodes v))

unfoldable pub originally_playable : Text → Bool
unfolding text_eq
originally_playable kind =
    text_eq kind (codes "movie")
    || text_eq kind (codes "episode")
    || text_eq kind (codes "clip")
    || text_eq kind (codes "track")

-- The test of `prune_children`, on a child that has been filtered.
unfoldable pub survives : MetaData → Bool
survives c =
    let no_media = is_empty (item_of c).media in
    let structural = no_media && has_nested c in
    not (originally_playable (item_of c).kind) || not no_media || structural

-- `filter_each` is the loop of `prune_children`, and `retain` its second half.
unfoldable mutual
  pub filter_media_recursive : ResolutionPolicy → MetaData → MetaData
  filter_media_recursive policy (node i m d v) =
      node (record i { media = filter (λ x. media_allowed x policy) i.media })
        (retain survives (filter_each policy m)) (retain survives (filter_each policy d))
        (retain survives (filter_each policy v))

  pub filter_each : ResolutionPolicy → MetaList → MetaList
  filter_each policy nil = nil
  filter_each policy (cons c cs) = cons (filter_media_recursive policy c) (filter_each policy cs)

-- The fail-closed helper: every version goes.
unfoldable mutual
  pub clear_media_recursive : MetaData → MetaData
  clear_media_recursive (node i m d v) =
      node (record i { media = [] }) (clear_each m) (clear_each d) (clear_each v)

  pub clear_each : MetaList → MetaList
  clear_each nil = nil
  clear_each (cons c cs) = cons (clear_media_recursive c) (clear_each cs)

unfoldable mutual
  pub count_media : MetaData → ℕ
  count_media (node i m d v) = length i.media + (count_each m + (count_each d + count_each v))

  pub count_each : MetaList → ℕ
  count_each nil = 0
  count_each (cons c cs) = count_media c + count_each cs
