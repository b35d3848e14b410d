-- ===== src/HubRoute/Safety.antt =====
-- What goes out of the routes of hub responses.
use replex.Prelude.{
  ℕ, ◌≡◌, refl, sym, ◌∙◌, ◌⊎◌, inl, inr, Bool, true, false, not, Option, none, some, List, [], ◌∷◌,
  All, arith, filter, if◌then◌else◌, Bool-cases, Option-cases,
}
use replex.Prelude.Int.{ℤ}
use replex.Prelude.Text.{Text}
use replex.Cache.{Cache}
use replex.Policy.Entries.{ResolutionPolicy, UserIdentity}
use replex.Security.{current_policy}
use replex.Metadata.{MetaData}
use replex.Transform.{
  MediaContainer, in_metadata, in_hub, in_video, in_directory, slot_of, Transform, apply_to,
  update_children,
}
use replex.Transform.Policy.Safety.{everything}
use replex.Transform.Chain.{
  InOneList, one_list, InOneList-everything, Takes, Chain, ends, and_next, apply_to-InOneList,
}
use replex.Transform.Hubs.Hidden.{
  Shown, Shown-if, Shown-with_item, Shown-update_children, collection_visibility-Takes,
  hub_restriction-Keeps, hub_watched-Keeps, user_state-Keeps, hub_key-Keeps,
}
use replex.Transform.Style.Hidden.{hub_style-Keeps}
use replex.Transform.Interleave.Hidden.{hub_interleave-Keeps}
use replex.Transform.Style.{HubContext}
use replex.HubRoute.{
  continues_watching, limit_row, limit_rows, shape_canonical_hubs, HubTools, visibility,
  presentation, present, transform_hubs_response, HubRequest, HubState, obtain,
  cached_hubs_response, fetch_hubs_payload, request_key, after_fetch, sent_of,
}
use replex.HubRoute.Fetch.{fetch_hubs_payload_iff}
use replex.Identity.Answers.{Answer, answered}

-- A response with its items in one list.
abbrev pub Plain : MediaContainer → Type 1
Plain c = InOneList (λ x. Unit) c

-- What holds of every row that is cut down holds of a response that is shaped.
module _ (P : MetaData → Type 0)
    (cut : (count : ℤ) (x : MetaData) → P x → P (limit_row count x)) where
  All-filter_rows :
      (keep : MetaData → Bool) (xs : List MetaData) → All P xs → All P (filter keep xs)
  unfolding filter
  All-filter_rows keep [] h = tt
  All-filter_rows keep (x ∷ xs) h = elim (Bool-cases (keep x)) [
    | inl stays ↦ rw stays (h.0, All-filter_rows keep xs h.1)
    | inr goes ↦ rw goes (All-filter_rows keep xs h.1)
  ]

  All-limit_rows : (count : Option ℤ) (xs : List MetaData) → All P xs → All P (limit_rows count xs)
  All-limit_rows none xs h = h
  All-limit_rows (some count) [] h = tt
  All-limit_rows (some count) (x ∷ xs) h = (cut count x h.0, All-limit_rows (some count) xs h.1)

  update_children-InOneList :
      (f : List MetaData → List MetaData) (c : MediaContainer)
      → ((xs : List MetaData) → All P xs → All P (f xs))
      → InOneList P c
      → InOneList P (update_children f c)
  unfolding update_children slot_of
  update_children-InOneList f c keep (one_list in_metadata n [] h) =
      one_list in_metadata n (f []) (keep [] tt)
  update_children-InOneList f c keep (one_list in_metadata n (x ∷ xs) h) =
      one_list in_metadata n (f (x ∷ xs)) (keep (x ∷ xs) h)
  update_children-InOneList f c keep (one_list in_hub n [] h) =
      one_list in_metadata n (f []) (keep [] tt)
  update_children-InOneList f c keep (one_list in_hub n (x ∷ xs) h) =
      one_list in_hub n (f (x ∷ xs)) (keep (x ∷ xs) h)
  update_children-InOneList f c keep (one_list in_video n [] h) =
      one_list in_metadata n (f []) (keep [] tt)
  update_children-InOneList f c keep (one_list in_video n (x ∷ xs) h) =
      one_list in_video n (f (x ∷ xs)) (keep (x ∷ xs) h)
  update_children-InOneList f c keep (one_list in_directory n [] h) =
      one_list in_metadata n (f []) (keep [] tt)
  update_children-InOneList f c keep (one_list in_directory n (x ∷ xs) h) =
      one_list in_directory n (f (x ∷ xs)) (keep (x ∷ xs) h)

  pub shape-InOneList :
      (context : HubContext) (c : MediaContainer)
      → InOneList P c
      → InOneList P (shape_canonical_hubs context c)
  unfolding shape_canonical_hubs
  shape-InOneList context c h = update_children-InOneList _ c shaped h
    where
      shaped :
          (xs : List MetaData)
          → All P xs
          → All P (
              limit_rows context.count (
                if context.exclude_continue_watching
                then filter (λ h. not (continues_watching h)) xs
                else xs))
      shaped xs h = elim (Bool-cases context.exclude_continue_watching) [
        | inl off ↦ rw off (All-limit_rows context.count _ (All-filter_rows _ xs h))
        | inr on ↦ rw on (All-limit_rows context.count xs h)
      ]

module _ (policy : ResolutionPolicy) where
  Shown-limit_row : (count : ℤ) (x : MetaData) → Shown policy x → Shown policy (limit_row count x)
  unfolding limit_row
  Shown-limit_row count x p =
      Shown-if policy _ _ x
        (Shown-with_item policy _ _ (refl, refl, refl) (λ k. k)
          (Shown-update_children policy _ x p))
        p

  abbrev Kept : List (Transform (Unit {0})) → Type 1
  Kept ts = Chain (Unit {0}) ts (Shown policy) (Shown policy)

  presentation-Kept : (tools : HubTools) → Kept (presentation tools)
  presentation-Kept tools =
      and_next (hub_restriction-Keeps policy (Unit {0}) tools.config tools.plex) (
        and_next (hub_style-Keeps policy tools.config.hero_rows tools.plex tools.context (Unit {0}))
          (and_next (hub_watched-Keeps policy (Unit {0}) tools.config tools.plex) (
            and_next (hub_interleave-Keeps policy tools.itertools tools.config (Unit {0})) (
              and_next (user_state-Keeps policy (Unit {0}) tools.config)
                (and_next (hub_key-Keeps policy (Unit {0})) ends)))))

  module _ (who : UserIdentity) (tools : HubTools)
      (known : current_policy tools.situation.runtime tools.situation.client tools.situation.account
        ≡ some (policy, who)) where
    visible : Takes (Unit {0}) (visibility tools) (λ x. Unit) (Shown policy)
    visible = collection_visibility-Takes policy (Unit {0}) tools.situation who (λ x. Unit) known

    present-InOneList :
        (passthrough : Bool) (c : MediaContainer)
        → Plain c
        → InOneList (Shown policy) (present tools passthrough c)
    unfolding present
    present-InOneList true c h =
        apply_to-InOneList (Unit {0}) (visibility tools ∷ []) _ (Shown policy) c tt
          (and_next visible ends) h
    present-InOneList false c h = shape-InOneList (Shown policy) Shown-limit_row tools.context _ (
        apply_to-InOneList (Unit {0}) (presentation tools) _ (Shown policy) _ tt
          (presentation-Kept tools)
          (apply_to-InOneList (Unit {0}) (visibility tools ∷ []) _ (Shown policy) c tt
            (and_next visible ends) h))

    -- A hub response that passes through to a known account, with its items in one list: what goes
    -- out, in any list, has no collection that is hidden from the account.
    pub transform_hubs_response-Shown :
        (has_client : Bool) (parsed r : MediaContainer)
        → Plain parsed
        → transform_hubs_response tools has_client (some parsed) ≡ some r
        → All (Shown policy) (everything r)
    unfolding transform_hubs_response
    transform_hubs_response-Shown true parsed r h e =
        let sent : (apply_to (Unit {0}) (visibility tools ∷ presentation tools) parsed tt).0 ≡ r =
          ground arith in
        rw (← sent) (
          InOneList-everything (Shown policy) _ (
            apply_to-InOneList (Unit {0}) (visibility tools ∷ presentation tools) _ (Shown policy)
              parsed tt (and_next visible (presentation-Kept tools)) h))
    transform_hubs_response-Shown false parsed r h e = cc

module _ (fingerprint : Text → Text) (payloads : Cache Text MediaContainer) (times : Cache Text ℕ)
    (get : Text → Answer MediaContainer) where
  abbrev State : Type 0
  State = HubState fingerprint payloads times get

  after_fetch-fst :
      (req : HubRequest) (f : Option MediaContainer) (s : State)
      → (after_fetch fingerprint payloads times get req f s).0 ≡ f
  unfolding after_fetch
  after_fetch-fst req none s = refl
  after_fetch-fst req (some p) s = refl

  -- A payload for a request is a cached one or one that Plex sends.
  obtain-some :
      (req : HubRequest) (s : State) (c : MediaContainer)
      → (obtain fingerprint payloads times get req s).0 ≡ some c
      → ((key : Text) × (payloads.lookup s.hubs.payloads key ≡ some c))
        ⊎ ((path : Text) × (fetch_hubs_payload get path ≡ some c))
  unfolding obtain
  obtain-some req s c e =
      let key = request_key fingerprint payloads times get req in
      elim (Option-cases (payloads.lookup s.hubs.payloads key)) [
        | inr (cached, found) ↦ inl (key, found ∙ (rw (found, obtain) at e))
        | inl missing ↦ inr (_, sym (after_fetch-fst req _ _) ∙ (rw (missing, obtain) at e))
      ]

  fetched-Plain :
      (path : Text) (c : MediaContainer)
      → ((path : Text) (status : ℕ) (c : MediaContainer)
          → get path ≡ answered status (some c)
          → Plain c)
      → fetch_hubs_payload get path ≡ some c
      → Plain c
  fetched-Plain path c plain e = elim ((fetch_hubs_payload_iff get path c).0 e) [
    | inl direct ↦ plain path 200 c direct
    | inr (rest, body, home, gone, moved) ↦ plain _ 200 c moved
  ]

  -- An answer is not the error for a missing client.
  guarded :
      (b : Bool) (o : Option MediaContainer × State) (s : State) (r : MediaContainer)
      → (if b then o else (none, s)).0 ≡ some r
      → o.0 ≡ some r
  guarded true o s r e = e
  guarded false o s r e = cc

  -- A hub response to a known account, cached or fetched, whatever the client says of itself, where
  -- the cached payloads and Plex's answers each have their items in one list: what goes out has, in
  -- any list, no collection that is hidden from the account.
  pub cached_hubs_response-Shown :
      (policy : ResolutionPolicy) (who : UserIdentity) (req : HubRequest) (s : State)
      (r : MediaContainer)
      → (let at = req.tools.situation in
          current_policy at.runtime at.client at.account ≡ some (policy, who))
      → ((key : Text) (c : MediaContainer) → payloads.lookup s.hubs.payloads key ≡ some c → Plain c)
      → ((path : Text) (status : ℕ) (c : MediaContainer)
          → get path ≡ answered status (some c)
          → Plain c)
      → (cached_hubs_response fingerprint payloads times get req s).0 ≡ some r
      → All (Shown policy) (everything r)
  unfolding cached_hubs_response
  cached_hubs_response-Shown policy who req s r known cached plain e =
      sent-Shown _ refl (guarded req.has_client _ s r e)
    where
      sent-Shown :
          (p : Option MediaContainer)
          → (obtain fingerprint payloads times get req s).0 ≡ p
          → sent_of fingerprint payloads times get req p ≡ some r
          → All (Shown policy) (everything r)
      sent-Shown none o e = cc
      sent-Shown (some c) o e =
          let same : present req.tools req.compatibility_passthrough c ≡ r = ground arith in
          rw (← same) (
            InOneList-everything (Shown policy) _ (
              present-InOneList policy who req.tools known req.compatibility_passthrough c
                (plain_payload c o)))
        where
          plain_payload :
              (c : MediaContainer)
              → (obtain fingerprint payloads times get req s).0 ≡ some c
              → Plain c
          plain_payload c o = elim (obtain-some req s c o) [
            | inl (key, found) ↦ cached key c found
            | inr (path, fetched) ↦ fetched-Plain path c plain fetched
          ]
