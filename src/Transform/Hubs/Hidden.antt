-- ===== src/Transform/Hubs/Hidden.antt =====
-- No transform of rows turns a row that may be shown into a hidden collection.
use replex.Prelude.{
  ◌≡◌, refl, sym, ap, ◌∙◌, inl, inr, ◌&&◌, ◌||◌, Bool, true, false, not, some, List, arith, any,
  is_empty, if◌then◌else◌, Bool-cases, Option-cases,
}
use replex.Prelude.Text.{Text, codes, text_eq, trim}
use replex.Policy.Entries.{ResolutionPolicy, UserIdentity}
use replex.Security.{current_policy}
use replex.Config.{Config}
use replex.Metadata.{
  Item, MetaData, MetaList, node, nil, cons, item_of, with_item, is_hub, is_collection_hub,
  no_nodes,
}
use replex.Metadata.Children.{update_children, set_children}
use replex.Transform.{Transform}
use replex.Transform.Policy.{Situation, is_hidden, collection_visibility}
use replex.Transform.Chain.{Takes}
use replex.Transform.Hubs.{
  Collections, hub_restriction, drop_watched, hub_watched, hide_state, user_state, point_to_replex,
  hub_key, without_state,
}

-- A row that the account may see.
abbrev pub Shown : ResolutionPolicy → MetaData → Type 0
Shown policy x = is_hidden x policy ≡ false

-- What decides whether a row is hidden, but for its kind.
abbrev pub Names : Item → Item → Type 0
Names i j = (j.title ≡ i.title) × (j.context ≡ i.context) × (j.hub_identifier ≡ i.hub_identifier)

abbrev is_collection_kind : Text → Bool
is_collection_kind kind = text_eq kind (codes "collection")

fewer : (a b k c : Bool) → (a && (b || k) && c) ≡ false → (a && (b || false) && c) ≡ false
fewer a b k c h = ground arith

module _ (policy : ResolutionPolicy) where
  -- A row with the name of one that may be shown may be shown, if it is no collection or of the same
  -- kind.
  pub Shown-Names :
      (x y : MetaData)
      → Names (item_of x) (item_of y)
      → (is_collection_kind (item_of y).kind ≡ true → is_collection_kind (item_of x).kind ≡ true)
      → Shown policy x
      → Shown policy y
  unfolding is_hidden
  Shown-Names x y (t, c, h) k shown =
      let e : is_collection_hub y ≡ is_collection_hub x =
        unfold is_collection_hub is_hub in rw (c, h) refl in
      elim (Bool-cases (is_collection_kind (item_of y).kind)) [
        | inl collection ↦
            let f : is_collection_kind (item_of x).kind ≡ true = k collection in
            rw (e, t, collection) (rw f at shown)
        | inr other ↦
            rw (e, t, other)
              (fewer (not (is_empty policy.hidden_collections)) (is_collection_hub x)
                (text_eq (item_of x).kind (codes "collection"))
                (any (λ h. text_eq h (trim (item_of x).title)) policy.hidden_collections) shown)
      ]

  -- A change of a row's lists leaves the row.
  pub Shown-update_children :
      (f : MetaList → MetaList) (x : MetaData) → Shown policy x → Shown policy (update_children f x)
  unfolding update_children
  Shown-update_children f (node i m d v) shown =
      let same = Shown-Names (node i m d v) in
      elim (Bool-cases (no_nodes m)) [
        | inr used ↦ rw used (same _ (refl, refl, refl) (λ k. k) shown)
        | inl none_m ↦ elim (Bool-cases (no_nodes v)) [
          | inr used ↦ rw (none_m, used) (same _ (refl, refl, refl) (λ k. k) shown)
          | inl none_v ↦ elim (Bool-cases (no_nodes d)) [
            | inr used ↦ rw (none_m, none_v, used) (same _ (refl, refl, refl) (λ k. k) shown)
            | inl none_d ↦ rw (none_m, none_v, none_d) (same _ (refl, refl, refl) (λ k. k) shown)
          ]
        ]
      ]

  Names-set_children :
      (x : MetaData) (value : List MetaData)
      → Names (item_of x) (item_of (set_children x value))
        × ((item_of (set_children x value)).kind ≡ (item_of x).kind)
  unfolding set_children
  Names-set_children (node i (cons c m) d v) value = ((refl, refl, refl), refl)
  Names-set_children (node i nil (cons c d) v) value = ((refl, refl, refl), refl)
  Names-set_children (node i nil nil (cons c v)) value = ((refl, refl, refl), refl)
  Names-set_children (node i nil nil nil) value = ((refl, refl, refl), refl)

  pub Shown-set_children :
      (x : MetaData) (value : List MetaData) → Shown policy x → Shown policy (set_children x value)
  Shown-set_children x value shown =
      let r = Names-set_children x value in
      Shown-Names x (set_children x value) r.0 (λ k. ap is_collection_kind (sym r.1) ∙ k) shown

  pub Shown-with_item :
      (x : MetaData) (j : Item)
      → Names (item_of x) j
      → (is_collection_kind j.kind ≡ true → is_collection_kind (item_of x).kind ≡ true)
      → Shown policy x
      → Shown policy (with_item x j)
  Shown-with_item (node i m d v) j names k shown = Shown-Names (node i m d v) _ names k shown

  pub Shown-if :
      (b : Bool) (x y : MetaData)
      → Shown policy x
      → Shown policy y
      → Shown policy (if b then x else y)
  Shown-if true x y p q = p
  Shown-if false x y p q = q

  Shown-drop_watched :
      (config : Config) (plex : Collections) (x : MetaData)
      → Shown policy x
      → Shown policy (drop_watched config plex x)
  unfolding drop_watched
  Shown-drop_watched config plex x p = Shown-if _ _ x (Shown-update_children _ x p) p

  Shown-without_state :
      (config : Config) (x : MetaData)
      → Shown policy x
      → Shown policy (with_item x (without_state config (item_of x)))
  Shown-without_state config x p = elim (Bool-cases config.disable_user_state) [
    | inl a ↦ elim (Bool-cases config.disable_leaf_count) [
      | inl b ↦ rw (a, b) (Shown-with_item x _ (refl, refl, refl) (λ k. k) p)
      | inr b ↦ rw (a, b) (Shown-with_item x _ (refl, refl, refl) (λ k. k) p)
    ]
    | inr a ↦ elim (Bool-cases config.disable_leaf_count) [
      | inl b ↦ rw (a, b) (Shown-with_item x _ (refl, refl, refl) (λ k. k) p)
      | inr b ↦ rw (a, b) (Shown-with_item x _ (refl, refl, refl) (λ k. k) p)
    ]
  ]

  Shown-hide_state :
      (config : Config) (x : MetaData) → Shown policy x → Shown policy (hide_state config x)
  unfolding hide_state
  Shown-hide_state config x p =
      Shown-if _ x _ p
        (Shown-if _ _ _ (Shown-update_children _ x p) (Shown-without_state config x p))

  Shown-point_to_replex : (x : MetaData) → Shown policy x → Shown policy (point_to_replex x)
  unfolding point_to_replex
  Shown-point_to_replex x p = elim (Option-cases (item_of x).key) [
    | inl keyless ↦ rw (keyless, point_to_replex) p
    | inr (k, e) ↦
        rw (e, point_to_replex)
          (Shown-if _ _ x (Shown-with_item x _ (refl, refl, refl) (λ k. k) p) p)
  ]

  module _ (S : Type 0) where
    -- What may be shown stays so under a change of each row.
    abbrev Keeps : Transform S → Type 1
    Keeps t = Takes S t (Shown policy) (Shown policy)

    pub collection_visibility-Takes :
        (at : Situation) (who : UserIdentity) (P : MetaData → Type 0)
        → current_policy at.runtime at.client at.account ≡ some (policy, who)
        → Takes S (collection_visibility S at) P (Shown policy)
    unfolding collection_visibility
    collection_visibility-Takes at who P known = record {
      each = λ x s stays p. ground arith;
      whole = λ c h. h;
    }

    module _ (config : Config) (plex : Collections) where
      pub hub_restriction-Keeps : Keeps (hub_restriction config plex S)
      hub_restriction-Keeps = record { each = λ x s stays p. p; whole = λ c h. h }

      pub hub_watched-Keeps : Keeps (hub_watched config plex S)
      hub_watched-Keeps = record {
        each = λ x s stays p. Shown-drop_watched config plex x p;
        whole = λ c h. h;
      }

    pub user_state-Keeps : (config : Config) → Keeps (user_state config S)
    user_state-Keeps config = record {
      each = λ x s stays p. Shown-hide_state config x p;
      whole = λ c h. h;
    }

    pub hub_key-Keeps : Keeps (hub_key S)
    hub_key-Keeps = record { each = λ x s stays p. Shown-point_to_replex x p; whole = λ c h. h }
