-- ===== src/Identity/Chain.antt =====
-- The identity chain, from Plex to the configuration.
use replex.Prelude.{
  ◌≡◌, refl, ◌∙◌, ◌⊎◌, inl, inr, ◌||◌, ◌==◌, Option, none, some, List, [], arith, unwrap_or, length,
  Bool-cases, Option-cases,
}
use replex.Prelude.Text.{Text, codes}
use replex.Policy.Entries.{UserIdentity, shared_resource, shared_server, ResolvedIdentity}
use replex.Cache.{Cache}
use replex.Config.{Config}
use replex.Identity.Xml.{pieces}
use replex.Identity.Answers.{
  Result, ok, error, Answer, unreachable, answered, RawUser, RawResource, PlexContext, Outside,
  scan_servers, scan_tags, identity_of_user,
}
use replex.Identity.{
  fetch_current_identity, fetched, after_resources, after_servers, resolve_shared_user,
  asked_servers, asked_resources, resolve_via_shared_servers, listed_resources, listed_servers,
  server_machine_id,
}
use replex.Identity.Machine.{
  GivesOurs, RemembersOurs, MachineFound, server_machine_id-FindsOurs,
  resolve_shared_user-Remembers,
}
use replex.Identity.Justified.{
  IsResourceOf, IsServerOf, scan_resources-IsResourceOf, scan_tags-IsServerOf, IsRejected,
  IsJustified, by_plex, by_resource, by_server, by_configuration-IsJustified,
}

module _ (IsOurs : Text → Type 0) (out : Outside) (config : Config) (context : PlexContext)
    (token : Text) (machines : Cache Text Text) (host : Text) (gives : GivesOurs IsOurs out) where
  abbrev Remembers : machines.Store → Type 0
  Remembers = RemembersOurs IsOurs machines host

  abbrev FindsOurs : Result Text × machines.Store → Type 0
  FindsOurs = MachineFound IsOurs machines host

  abbrev Backed : ResolvedIdentity → Type 0
  Backed = IsJustified IsOurs out config context token

  abbrev Rejects : Type 0
  Rejects = IsRejected IsOurs out config context token

  listed_servers-IsServerOf :
      (answer : Answer Text) (i : UserIdentity)
      → listed_servers machines out config host token answer ≡ ok (some i)
      → (body : Option Text) × (answer ≡ answered 200 body) × IsServerOf token (unwrap_or body []) i
  unfolding listed_servers scan_servers
  listed_servers-IsServerOf unreachable i h = cc
  listed_servers-IsServerOf (answered status body) i h = elim (Bool-cases (status == 200)) [
    | inr other ↦ absurd (ground (arith, other))
    | inl fine ↦
        let text : Text = unwrap_or body [] in
        let e : scan_tags token (pieces (length text) (codes "<SharedServer ") text) ≡ some i =
          ground (arith, fine) in
        (body, ground (arith, fine), scan_tags-IsServerOf token _ i e)
  ]

  asked_servers-IsJustified :
      (admin : Text) (asked : Result Text × machines.Store) (i : UserIdentity)
      → Rejects
      → config.token ≡ some admin
      → FindsOurs asked
      → (asked_servers machines out config host admin token asked).0 ≡ ok (some i)
      → Backed (record { identity = i; source = shared_server })
  unfolding asked_servers
  asked_servers-IsJustified admin (error e, s) i rejected mine found h = cc
  asked_servers-IsJustified admin (ok machine_id, s) i rejected mine found h =
      let r = listed_servers-IsServerOf (out.shared_servers admin machine_id) i h in
      by_server admin machine_id r.0 i rejected mine (found.0 machine_id refl) r.1 r.2

  servers-IsJustified :
      (s : machines.Store) (i : UserIdentity)
      → Rejects
      → Remembers s
      → (resolve_via_shared_servers machines out config host token s).0 ≡ ok (some i)
      → Backed (record { identity = i; source = shared_server })
  unfolding resolve_via_shared_servers
  servers-IsJustified s i rejected held h = elim (Option-cases config.token) [
    | inl nobody ↦ absurd (ground (arith, nobody))
    | inr (admin, mine) ↦
        asked_servers-IsJustified admin (server_machine_id machines out config host s) i rejected
          mine (server_machine_id-FindsOurs IsOurs out config token machines host gives s held)
          (rw mine at h)
  ]

  listed_resources-IsResourceOf :
      (machine_id : Text) (answer : Answer (List RawResource)) (i : UserIdentity)
      → listed_resources machines out config host machine_id answer ≡ ok (some i)
      → (rs : List RawResource) × (answer ≡ answered 200 (some rs)) × IsResourceOf machine_id rs i
  unfolding listed_resources
  listed_resources-IsResourceOf machine_id unreachable i h = cc
  listed_resources-IsResourceOf machine_id (answered status none) i h = absurd (ground arith)
  listed_resources-IsResourceOf machine_id (answered status (some rs)) i h =
      elim (Bool-cases (status == 200)) [
        | inr other ↦ absurd (ground (arith, other))
        | inl fine ↦ (
          rs,
          ground (arith, fine),
          scan_resources-IsResourceOf machine_id rs i (ground (arith, fine)),
        )
      ]

  asked_resources-IsJustified :
      (asked : Result Text × machines.Store) (i : UserIdentity)
      → Rejects
      → FindsOurs asked
      → (asked_resources machines out config host token asked).0 ≡ ok (some i)
      → Backed (record { identity = i; source = shared_resource })
  unfolding asked_resources
  asked_resources-IsJustified (error e, s) i rejected found h = cc
  asked_resources-IsJustified (ok machine_id, s) i rejected found h =
      elim (Bool-cases (out.header_ok token)) [
        | inr bad ↦ absurd (ground (arith, bad))
        | inl fine ↦
            let r =
              listed_resources-IsResourceOf machine_id (out.resources token) i
                (ground (arith, fine)) in
            by_resource machine_id r.0 i rejected (found.0 machine_id refl) r.1 r.2
      ]

  after_servers-IsJustified :
      (found : Result (Option UserIdentity) × machines.Store) (r : ResolvedIdentity)
      → Rejects
      → ((i : UserIdentity)
          → found.0 ≡ ok (some i)
          → Backed (record { identity = i; source = shared_server }))
      → (after_servers machines out config host context token found).0 ≡ ok r
      → Backed r
  unfolding after_servers
  after_servers-IsJustified (error e, s) r rejected first h = cc
  after_servers-IsJustified (ok (some i), s) r rejected first h =
      let e : record { identity = i; source = shared_server } ≡ r = ground arith in
      rw (← e) (first i refl)
  after_servers-IsJustified (ok none, s) r rejected first h =
      by_configuration-IsJustified IsOurs out config context token r rejected h

  after_resources-IsJustified :
      (found : Result (Option UserIdentity) × machines.Store) (r : ResolvedIdentity)
      → Rejects
      → ((i : UserIdentity)
          → found.0 ≡ ok (some i)
          → Backed (record { identity = i; source = shared_resource }))
      → Remembers found.1
      → (after_resources machines out config host context token found).0 ≡ ok r
      → Backed r
  unfolding after_resources
  after_resources-IsJustified (error e, s) r rejected first held h = cc
  after_resources-IsJustified (ok (some i), s) r rejected first held h =
      let e : record { identity = i; source = shared_resource } ≡ r = ground arith in
      rw (← e) (first i refl)
  after_resources-IsJustified (ok none, s) r rejected first held h =
      after_servers-IsJustified (resolve_via_shared_servers machines out config host token s) r
        rejected (λ i e. servers-IsJustified s i rejected held e) h

  fetched-IsJustified :
      (answer : Answer RawUser) (s : machines.Store) (r : ResolvedIdentity)
      → out.user token ≡ answer
      → Remembers s
      → (fetched machines out config host context token answer s).0 ≡ ok r
      → Backed r
  unfolding fetched resolve_shared_user
  fetched-IsJustified unreachable s r e held h = cc
  fetched-IsJustified (answered status body) s r e held h = elim (Bool-cases (status == 200)) [
    | inl fine ↦ elim (Option-cases body) [
      | inl unread ↦ absurd (ground (arith, fine, unread))
      | inr (raw, read) ↦
          let same : identity_of_user raw ≡ r = ground (arith, fine, read) in
          rw (← same) (by_plex raw (e ∙ ground (arith, fine, read)))
    ]
    | inr other ↦ elim (Bool-cases (status == 401 || status == 403)) [
      | inr odd ↦ absurd (ground (arith, other, odd))
      | inl rejects ↦
          let rejected : Rejects = elim (Bool-cases (status == 401)) [
            | inl here ↦ (body, inl (e ∙ ground (arith, here)))
            | inr there ↦ (body, inr (e ∙ ground (arith, there, rejects)))
          ] in
          after_resources-IsJustified (resolve_shared_user machines out config host token s) r
            rejected
            (λ i k.
              asked_resources-IsJustified (server_machine_id machines out config host s) i rejected
                (server_machine_id-FindsOurs IsOurs out config token machines host gives s held) k)
            (resolve_shared_user-Remembers IsOurs out config token machines host gives s held)
            (ground (arith, other, rejects))
    ]
  ]

  pub fetch_current_identity-Backed :
      (s : machines.Store) (r : ResolvedIdentity)
      → Remembers s
      → (fetch_current_identity machines out config host context token s).0 ≡ ok r
      → Backed r
  unfolding fetch_current_identity
  fetch_current_identity-Backed s r held h = elim (Bool-cases (out.header_ok token)) [
    | inr bad ↦ absurd (ground (arith, bad))
    | inl fine ↦ fetched-IsJustified (out.user token) s r refl held (ground (arith, fine))
  ]

-- The machine ids of this server: the one it gives now, and the one that is remembered for it.
abbrev pub IsMachineOf :
    Outside → (machines : Cache Text Text) → Text → machines.Store → Text → Type 0
IsMachineOf out machines host s id =
    (out.root ≡ some (some id)) ⊎ (machines.lookup s host ≡ some id)

-- An account that the chain finds for a token is justified. Either Plex answers for the token; or
-- Plex rejects the token with 401 or 403, and one of these holds: it lists this server, by the
-- machine id that the server gives or that is remembered for its address, as shared with the
-- account; the administrator's list of those who share this server, again by that id, has the token
-- for the account; the configuration binds the token's digest to the account and lets this client
-- use it; or the digest is not bound and the account is the one that the configuration gives to the
-- client's identifier, or, where the configuration trusts the header, the one that the request's
-- header names.
pub fetch_current_identity-IsJustified :
    (out : Outside) (config : Config) (context : PlexContext) (token : Text)
    (machines : Cache Text Text) (host : Text) (s : machines.Store) (r : ResolvedIdentity)
    → (fetch_current_identity machines out config host context token s).0 ≡ ok r
    → IsJustified (IsMachineOf out machines host s) out config context token r
fetch_current_identity-IsJustified out config context token machines host s r h =
    fetch_current_identity-Backed (IsMachineOf out machines host s) out config context token
      machines host (λ id e. inl e) s r (λ id e. inr e) h
