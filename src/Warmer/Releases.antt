-- ===== src/Warmer/Releases.antt =====
-- The warmer leaves no refresh claimed.
use replex.Prelude.{
  ℕ, ◌≡◌, refl, ap, ◌∙◌, inl, inr, true, false, Option, none, some, List, [], ◌∷◌, arith, any,
  filter, Bool-cases,
}
use replex.Prelude.Text.{Text, text_eq, text_eq_refl}
use replex.Prelude.Sorted.{text_eq_sym}
use replex.Cache.{Cache}
use replex.Hub.{
  track_fetched, member, insert_key, remove_key, claim_refresh, end_refresh, refresh_hub_entry,
}
use replex.Transform.{MediaContainer}
use replex.HubRoute.{Upstream}
use replex.Warmer.{WarmStep, State, warm_key, warm_hub, warm_hubs}

-- Removing a key that is not there.
remove_key-other : (k : Text) (keys : List Text) → member k keys ≡ false → remove_key k keys ≡ keys
unfolding member remove_key any filter
remove_key-other k [] h = refl
remove_key-other k (j ∷ keys) h = elim (Bool-cases (text_eq k j)) [
  | inl same ↦ absurd (let f = rw same at h in cc)
  | inr other ↦
      let rest : member k keys ≡ false = rw other at h in
      rw (text_eq_sym k j other, remove_key-other k keys rest) refl
]

remove_key_claimed :
    (k : Text) (keys : List Text)
    → (insert_key k keys).0 ≡ true
    → remove_key k (insert_key k keys).1 ≡ keys
unfolding insert_key remove_key filter
remove_key_claimed k keys h = elim (Bool-cases (member k keys)) [
  | inl running ↦ absurd (let f = rw running at h in cc)
  | inr free ↦ rw (free, text_eq_refl k) (remove_key-other k keys free)
]

insert_key_refused :
    (k : Text) (keys : List Text) → (insert_key k keys).0 ≡ false → (insert_key k keys).1 ≡ keys
unfolding insert_key
insert_key_refused k keys h = ground arith

module _ (fingerprint : Text → Text) (parse : Text → Text × (Text → Option Text))
    (payloads : Cache Text MediaContainer) (times : Cache Text ℕ) (get : Text → Upstream)
    (clock : Text → ℕ) where
  abbrev Here : Type 0
  Here = State fingerprint parse payloads times get clock

  refreshed-inflight :
      (key : Text) (now : ℕ) (o : Option MediaContainer) (s : Here)
      → (refresh_hub_entry MediaContainer payloads times key now o s).inflight ≡ s.inflight
  unfolding refresh_hub_entry track_fetched
  refreshed-inflight key now none s = refl
  refreshed-inflight key now (some p) s = refl

  warm_hub-inflight :
      (step : WarmStep) (s : Here)
      → (warm_hub fingerprint parse payloads times get clock step s).inflight ≡ s.inflight
  unfolding warm_hub claim_refresh end_refresh
  warm_hub-inflight step s =
      let key = warm_key fingerprint parse payloads times get clock step in
      elim (Bool-cases (insert_key key s.inflight).0) [
        | inl claimed ↦ rw claimed (
            ap (remove_key key) (refreshed-inflight _ _ _ _)
            ∙ remove_key_claimed key s.inflight claimed)
        | inr refused ↦ rw refused (insert_key_refused key s.inflight refused)
      ]

  -- Warming any paths with any tokens leaves the set of running refreshes as it was, whether Plex
  -- answers or not: no key stays claimed, and none that another refresh has claimed is released.
  pub warm_hubs-inflight :
      (steps : List WarmStep) (s : Here)
      → (warm_hubs fingerprint parse payloads times get clock steps s).inflight ≡ s.inflight
  unfolding warm_hubs
  warm_hubs-inflight [] s = refl
  warm_hubs-inflight (step ∷ steps) s =
      warm_hubs-inflight steps (warm_hub fingerprint parse payloads times get clock step s)
      ∙ warm_hub-inflight step s
