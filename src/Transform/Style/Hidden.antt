-- ===== src/Transform/Style/Hidden.antt =====
-- Showing a row as a hero does not turn it into a hidden collection.
use replex.Prelude.{[], ◌≡◌, refl, false, Option, List, unwrap_or, inl, inr, Bool-cases}
use replex.Prelude.Text.{Text, codes, text_eq, to_lowercase}
use replex.Policy.Entries.{ResolutionPolicy}
use replex.Metadata.{MetaData}
use replex.Transform.Chain.{Takes}
use replex.Transform.Hubs.{Collections}
use replex.Transform.Hubs.Hidden.{Shown, Shown-if, Shown-with_item, Shown-set_children}
use replex.Transform.Style.{
  HubContext, DeviceType, tv, mobile, Platform, android, ios, tv_os, safari, chrome, roku_os,
  web_browser, generic, device_type, android_style, other_style, from_context, style_hub, hub_style,
}

other_style-kind : (product : Text) → (other_style product).kind ≡ codes "mixed"
other_style-kind product = elim (Bool-cases (text_eq (to_lowercase product) (codes "plex web"))) [
  | inl is_web ↦ rw is_web refl
  | inr is_other ↦ rw is_other refl
]

android_style-kind : (d : DeviceType) → text_eq (android_style d).kind (codes "collection") ≡ false
unfolding text_eq
android_style-kind tv = refl
android_style-kind mobile = refl

-- No client shows a hero row as a collection.
from_context-kind :
    (context : HubContext) → text_eq (from_context context).kind (codes "collection") ≡ false
unfolding from_context
from_context-kind context = go (unwrap_or context.platform generic) refl
  where
    mixed : text_eq (codes "mixed") (codes "collection") ≡ false
    mixed = unfold text_eq in refl

    other : (p : Text) → text_eq (other_style p).kind (codes "collection") ≡ false
    other p = rw (other_style-kind p) mixed

    go :
        (p : Platform)
        → unwrap_or context.platform generic ≡ p
        → text_eq (from_context context).kind (codes "collection") ≡ false
    go android e = rw (e, from_context) (android_style-kind (device_type context))
    go ios e = rw (e, from_context) mixed
    go tv_os e = rw (e, from_context) mixed
    go safari e = rw (e, from_context) (other (unwrap_or context.product []))
    go chrome e = rw (e, from_context) (other (unwrap_or context.product []))
    go roku_os e = rw (e, from_context) mixed
    go web_browser e = rw (e, from_context) (other (unwrap_or context.product []))
    go generic e = rw (e, from_context) (other (unwrap_or context.product []))

module _ (policy : ResolutionPolicy) (hero_rows : Option (List Text)) (plex : Collections)
    (options : HubContext) where
  Shown-style_hub :
      (x : MetaData) → Shown policy x → Shown policy (style_hub hero_rows plex options x)
  unfolding style_hub
  Shown-style_hub x p =
      Shown-if policy _ _ x
        (Shown-set_children policy _ _ (
          Shown-with_item policy x _ (refl, refl, refl)
            (λ k. absurd (let e = from_context-kind options in cc)) p))
        p

  pub hub_style-Keeps :
      (S : Type 0) → Takes S (hub_style hero_rows plex options S) (Shown policy) (Shown policy)
  hub_style-Keeps S = record { each = λ x s stays p. Shown-style_hub x p; whole = λ c h. h }
