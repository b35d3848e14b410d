-- ===== src/Identity/Justified.antt =====
-- What stands behind an account that the identity chain finds.
use replex.Prelude.{
  ◌≡◌, refl, inl, inr, true, Option, none, some, List, [], ◌∷◌, ◌++◌, Memᴰ, arith, unwrap_or,
  length, Bool-cases, Option-cases, ◌⊎◌,
}
use replex.Prelude.Int.{pos}
use replex.Prelude.Text.{Text, codes, is_text}
use replex.Policy.Entries.{
  UserIdentity, shared_resource, shared_server, token_fingerprint, legacy_client_identifier,
  username_fallback, ResolvedIdentity,
}
use replex.Policy.Entries.Resolve.{is_text_iff}
use replex.Config.{Config, TokenIdentityBinding, username, client_identifier}
use replex.Identity.Xml.{pieces}
use replex.Identity.Answers.{
  ok, answered, RawUser, RawResource, PlexContext, Outside, get_key, non_empty, scan_resources,
  scan_tags, tag_attrs, is_ours, shared_identity, identity_of_user,
}
use replex.Identity.Configured.{
  by_configuration, by_client_identifier, by_username_header, binding_allows,
}

-- One of the server's resources, with the name of the account that it is shared with.
abbrev pub IsResourceOf : Text → List RawResource → UserIdentity → Type 0
IsResourceOf machine_id rs i =
    (r : RawResource) × Memᴰ r rs
    × (is_ours machine_id r ≡ true)
    × (r.source_title ≡ some i.username)
    × (i ≡ shared_identity (unwrap_or r.owner_id (pos 0)) i.username)

-- An entry of the list of shared servers, with the token and the name of its account.
abbrev pub IsServerOf : Text → Text → UserIdentity → Type 0
IsServerOf token body i =
    (tag : Text) × Memᴰ tag (pieces (length body) (codes "<SharedServer ") body)
    × (get_key (tag_attrs tag) (codes "accessToken") ≡ some token)
    × (get_key (tag_attrs tag) (codes "username") ≡ some i.username)

non_empty-some : (o : Option Text) (u : Text) → non_empty o ≡ some u → o ≡ some u
non_empty-some none u h = h
non_empty-some (some t) u h = ground arith

pub scan_resources-IsResourceOf :
    (machine_id : Text) (rs : List RawResource) (i : UserIdentity)
    → scan_resources machine_id rs ≡ some i
    → IsResourceOf machine_id rs i
unfolding scan_resources
scan_resources-IsResourceOf machine_id [] i h = cc
scan_resources-IsResourceOf machine_id (r ∷ rs) i h = elim (Bool-cases (is_ours machine_id r)) [
  | inl ours ↦ elim (Option-cases (non_empty r.source_title)) [
    | inl nothing ↦ absurd (ground (arith, ours, nothing))
    | inr (u, title) ↦
        let e : shared_identity (unwrap_or r.owner_id (pos 0)) u ≡ i =
          ground (arith, ours, title) in
        rw (← e) (r, Memᴰ.head refl, ours, non_empty-some r.source_title u title, refl)
  ]
  | inr other ↦
      let rest = scan_resources-IsResourceOf machine_id rs i (ground (arith, other)) in
      (rest.0, Memᴰ.tail rest.1, rest.2, rest.3, rest.4)
]

pub scan_tags-IsServerOf :
    (token : Text) (tags : List Text) (i : UserIdentity)
    → scan_tags token tags ≡ some i
    → (tag : Text) × Memᴰ tag tags
      × (get_key (tag_attrs tag) (codes "accessToken") ≡ some token)
      × (get_key (tag_attrs tag) (codes "username") ≡ some i.username)
unfolding scan_tags
scan_tags-IsServerOf token [] i h = cc
scan_tags-IsServerOf token (tag ∷ tags) i h =
    elim (Bool-cases (is_text (get_key (tag_attrs tag) (codes "accessToken")) token)) [
      | inr other ↦
          let rest = scan_tags-IsServerOf token tags i (ground (arith, other)) in
          (rest.0, Memᴰ.tail rest.1, rest.2, rest.3)
      | inl same ↦ elim (Option-cases (non_empty (get_key (tag_attrs tag) (codes "username")))) [
        | inl nameless ↦
            let rest = scan_tags-IsServerOf token tags i (ground (arith, same, nameless)) in
            (rest.0, Memᴰ.tail rest.1, rest.2, rest.3)
        | inr (u, name) ↦
            let e : u ≡ i.username = ground (arith, same, name) in
            (tag, Memᴰ.head refl, (is_text_iff _ token).0 same, rw (← e) (non_empty-some _ u name))
      ]
    ]

-- `IsOurs`: the machine ids of this server.
module _ (IsOurs : Text → Type 0) (out : Outside) (config : Config) (context : PlexContext)
    (token : Text) where
  -- Plex does not know the token.
  abbrev pub IsRejected : Type 0
  IsRejected =
      (body : Option RawUser) × ((out.user token ≡ answered 401 body)
        ⊎ (out.user token ≡ answered 403 body))

  abbrev binding_of : Option TokenIdentityBinding
  binding_of = get_key config.token_identity_map (out.fingerprint token)

  -- The ways to an account, from the strongest one to the weakest: Plex knows the token; it lists
  -- this server as shared with the account; the administrator's list of shared servers has the
  -- token; the configuration binds the token's digest, for this client; the configuration names the
  -- client, and does not bind the token; the configuration trusts the header, and does not bind the
  -- token.
  pub data IsJustified : ResolvedIdentity → Type 0 where
    by_plex :
        (raw : RawUser)
        → out.user token ≡ answered 200 (some raw)
        → IsJustified (identity_of_user raw)
    by_resource :
        (machine_id : Text) (rs : List RawResource) (i : UserIdentity)
        → IsRejected
        → IsOurs machine_id
        → out.resources token ≡ answered 200 (some rs)
        → IsResourceOf machine_id rs i
        → IsJustified (record { identity = i; source = shared_resource })
    by_server :
        (admin machine_id : Text) (body : Option Text) (i : UserIdentity)
        → IsRejected
        → config.token ≡ some admin
        → IsOurs machine_id
        → out.shared_servers admin machine_id ≡ answered 200 body
        → IsServerOf token (unwrap_or body []) i
        → IsJustified (record { identity = i; source = shared_server })
    by_binding :
        (binding : TokenIdentityBinding) (i : UserIdentity)
        → IsRejected
        → binding_of ≡ some binding
        → i.username ≡ username binding
        → ((required : Text)
            → client_identifier binding ≡ some required
            → context.client_identifier ≡ some required)
        → IsJustified (record { identity = i; source = token_fingerprint })
    by_client :
        (cid : Text) (i : UserIdentity)
        → IsRejected
        → binding_of ≡ none
        → context.client_identifier ≡ some cid
        → get_key config.client_identity_map cid ≡ some i.username
        → IsJustified (record { identity = i; source = legacy_client_identifier })
    by_header :
        (i : UserIdentity)
        → IsRejected
        → binding_of ≡ none
        → config.allow_username_fallback ≡ true
        → context.username ≡ some i.username
        → IsJustified (record { identity = i; source = username_fallback })

  by_username_header-IsJustified :
      (r : ResolvedIdentity)
      → IsRejected
      → binding_of ≡ none
      → by_username_header config context ≡ ok r
      → IsJustified r
  unfolding by_username_header
  by_username_header-IsJustified r rejected unbound h =
      elim (Bool-cases config.allow_username_fallback) [
        | inr off ↦ absurd (ground (arith, off))
        | inl on ↦ elim (Option-cases (non_empty context.username)) [
          | inl nameless ↦ absurd (ground (arith, on, nameless))
          | inr (u, name) ↦
              let i : UserIdentity = record {
                id = pos 0;
                uuid = codes "unverified-" ++ u;
                username = u;
              } in
              let e : record { identity = i; source = username_fallback } ≡ r =
                ground (arith, on, name) in
              rw (← e) (by_header i rejected unbound on (non_empty-some context.username u name))
        ]
      ]

  by_client_identifier-IsJustified :
      (r : ResolvedIdentity)
      → IsRejected
      → binding_of ≡ none
      → by_client_identifier config context ≡ ok r
      → IsJustified r
  unfolding by_client_identifier
  by_client_identifier-IsJustified r rejected unbound h =
      elim (Option-cases context.client_identifier) [
        | inl absent ↦ by_username_header-IsJustified r rejected unbound (ground (arith, absent))
        | inr (cid, present) ↦ elim (Option-cases (get_key config.client_identity_map cid)) [
          | inl unmapped ↦
              by_username_header-IsJustified r rejected unbound (ground (arith, present, unmapped))
          | inr (u, mapped) ↦
              let i : UserIdentity = record {
                id = pos 0;
                uuid = codes "cid-" ++ cid;
                username = u;
              } in
              let e : record { identity = i; source = legacy_client_identifier } ≡ r =
                ground (arith, present, mapped) in
              rw (← e) (by_client cid i rejected unbound present mapped)
        ]
      ]

  binding_client :
      (binding : TokenIdentityBinding)
      → binding_allows binding context.client_identifier ≡ true
      → (required : Text) → client_identifier binding ≡ some required
      → context.client_identifier ≡ some required
  unfolding binding_allows
  binding_client binding allowed required demands =
      (is_text_iff context.client_identifier required).0 (ground (arith, demands))

  pub by_configuration-IsJustified :
      (r : ResolvedIdentity)
      → IsRejected
      → by_configuration config context (out.fingerprint token) ≡ ok r
      → IsJustified r
  unfolding by_configuration
  by_configuration-IsJustified r rejected h = elim (Option-cases binding_of) [
    | inl unbound ↦ by_client_identifier-IsJustified r rejected unbound (ground (arith, unbound))
    | inr (binding, bound) ↦ elim (Bool-cases (binding_allows binding context.client_identifier)) [
      | inr refused ↦ absurd (ground (arith, bound, refused))
      | inl allowed ↦
          let i : UserIdentity = record {
            id = pos 0;
            uuid = codes "token-sha256-" ++ out.fingerprint token;
            username = username binding;
          } in
          let e : record { identity = i; source = token_fingerprint } ≡ r =
            ground (arith, bound, allowed) in
          rw (← e) (by_binding binding i rejected bound refl (binding_client binding allowed))
    ]
  ]
