-- ===== src/HubRoute/Routed.antt =====
-- That the rows of a hub response lead back to this program.
use replex.Prelude.{
  ◌≡◌, refl, ap, ◌∙◌, ◌&&◌, inl, inr, true, false, not, some, [], ◌∷◌, ◌++◌, All, arith, Bool-cases,
  Option-cases, map_or, unwrap_or, take, length, ltb,
}
use replex.Prelude.Int.{ℤ}
use replex.Prelude.Text.{Text, codes, starts_with, starts_with_append}
use replex.Policy.Entries.{unrestricted}
use replex.Metadata.{
  Item, MetaData, MetaList, node, item_of, with_item, is_hub, no_nodes, to_list, of_list,
}
use replex.Metadata.Children.{children_mut, update_children}
use replex.Transform.{MediaContainer}
use replex.Transform.Policy.{is_hidden, collection_visibility}
use replex.Transform.Policy.Safety.{everything}
use replex.Transform.Chain.{InOneList-everything, Takes, Chain, ends, and_next, apply_to-InOneList}
use replex.Transform.Hubs.{as_usize, point_to_replex, hub_key}
use replex.Transform.Hubs.Hidden.{Shown, hub_restriction-Keeps, hub_watched-Keeps, user_state-Keeps}
use replex.Transform.Style.Hidden.{hub_style-Keeps}
use replex.Transform.Interleave.Hidden.{hub_interleave-Keeps}
use replex.HubRoute.{HubTools, limit_row, visibility, presentation, present}
use replex.HubRoute.Safety.{Plain, shape-InOneList}

-- A row whose key, if it has one, leads to this program.
abbrev pub Routed : MetaData → Type 0
Routed x = is_hub x ≡ true → map_or (item_of x).key true (starts_with (codes "/replex")) ≡ true

item_of-with_item : (x : MetaData) (j : Item) → item_of (with_item x j) ≡ j
item_of-with_item (node i m d v) j = refl

-- The key that a row gets leads here.
replex_key : (t : Text) → starts_with (codes "/replex") (codes "/replex/" ++ t) ≡ true
replex_key t = starts_with_append (codes "/replex") (codes "/" ++ t)

Routed-point_to_replex : (x : MetaData) → Routed (point_to_replex x)
unfolding point_to_replex
Routed-point_to_replex x = elim (Option-cases (item_of x).key) [
  | inl keyless ↦ λ h. rw (keyless, point_to_replex, keyless) refl
  | inr (k, e) ↦ elim (Bool-cases (is_hub x && not (starts_with (codes "/replex") k))) [
    | inl moved ↦ λ h.
        rw (e, point_to_replex, moved, item_of-with_item x _)
          (replex_key (unwrap_or (item_of x).style (codes "shelf") ++ k))
    | inr stays ↦ rw (e, point_to_replex, stays) (λ h. rw e (ground arith))
  ]
]

Routed-same :
    (x y : MetaData)
    → (item_of y).key ≡ (item_of x).key
    → (item_of y).hub_identifier ≡ (item_of x).hub_identifier
    → Routed x
    → Routed y
unfolding is_hub
Routed-same x y k i r h = rw k (r (rw (← i) h))

item_of-update_children :
    (f : MetaList → MetaList) (x : MetaData) → item_of (update_children f x) ≡ item_of x
unfolding update_children
item_of-update_children f (node i m d v) = elim (Bool-cases (no_nodes m)) [
  | inr used ↦ rw used refl
  | inl none_m ↦ elim (Bool-cases (no_nodes v)) [
    | inr used ↦ rw (none_m, used) refl
    | inl none_v ↦ elim (Bool-cases (no_nodes d)) [
      | inr used ↦ rw (none_m, none_v, used) refl
      | inl none_d ↦ rw (none_m, none_v, none_d) refl
    ]
  ]
]

-- Cutting a row down leaves its key.
Routed-limit_row : (count : ℤ) (x : MetaData) → Routed x → Routed (limit_row count x)
unfolding limit_row
Routed-limit_row count x r =
    elim (Bool-cases (ltb (as_usize count) (length (to_list (children_mut x))))) [
      | inr short ↦ rw short r
      | inl long ↦
          let cut = update_children (λ xs. of_list (take (as_usize count) (to_list xs))) x in
          let whole : item_of cut ≡ item_of x = item_of-update_children _ x in
          let shaped : item_of (with_item cut (record (item_of cut) { size = some count }))
              ≡ record (item_of cut) { size = some count } =
            item_of-with_item cut _ in
          rw long (
            Routed-same x _ (ap (λ i. i.key) shaped ∙ ap (λ i. i.key) whole)
              (ap (λ i. i.hub_identifier) shaped ∙ ap (λ i. i.hub_identifier) whole) r)
    ]

-- With no collection hidden, every row may be shown.
Shown-unrestricted : (x : MetaData) → Shown unrestricted x
Shown-unrestricted x = unfold is_hidden in refl

-- With the presentation on, the rows that go out for a response with its items in one list have keys,
-- where they have one, that lead back to this program, whether the account is known or not.
pub present-Routed :
    (tools : HubTools) (c : MediaContainer)
    → Plain c
    → All Routed (everything (present tools false c))
unfolding present
present-Routed tools c h = InOneList-everything Routed _ (
    shape-InOneList Routed Routed-limit_row tools.context _ (
      apply_to-InOneList (Unit {0}) (presentation tools) (Shown unrestricted) Routed _ tt presented
        (apply_to-InOneList (Unit {0}) (visibility tools ∷ []) (λ x. Unit) (Shown unrestricted) c tt
          (and_next seen ends) h)))
  where
    seen : Takes (Unit {0}) (visibility tools) (λ x. Unit) (Shown unrestricted)
    seen = record {
      each = λ x s stays p. Shown-unrestricted _;
      whole = λ d k. unfold collection_visibility in k;
    }

    pointed : Takes (Unit {0}) (hub_key (Unit {0})) (Shown unrestricted) Routed
    pointed = record { each = λ x s stays p. Routed-point_to_replex x; whole = λ d k. k }

    presented : Chain (Unit {0}) (presentation tools) (Shown unrestricted) Routed
    presented = and_next (hub_restriction-Keeps unrestricted (Unit {0}) tools.config tools.plex) (
        and_next
          (hub_style-Keeps unrestricted tools.config.hero_rows tools.plex tools.context (Unit {0}))
          (and_next (hub_watched-Keeps unrestricted (Unit {0}) tools.config tools.plex) (
            and_next (hub_interleave-Keeps unrestricted tools.itertools tools.config (Unit {0})) (
              and_next (user_state-Keeps unrestricted (Unit {0}) tools.config)
                (and_next pointed ends)))))
