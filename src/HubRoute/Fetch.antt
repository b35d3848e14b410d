-- ===== src/HubRoute/Fetch.antt =====
-- What a hub payload that was fetched rests on.
use replex.Prelude.{
  ◌≡◌, refl, ap, ◌∙◌, ◌↔◌, ◌⊎◌, inl, inr, ◌==◌, ◌&&◌, true, Option, some, ◌++◌, arith, Bool-cases,
}
use replex.Prelude.Text.{Text, codes, starts_with, starts_with-eq, starts_with_append, strip_prefix}
use replex.Identity.Answers.{Answer, unreachable, answered}
use replex.Transform.{MediaContainer}
use replex.HubRoute.{payload_of, fallback_path, after_answer, fetch_hubs_payload}

payload_of-200 :
    (a : Answer MediaContainer) (c : MediaContainer)
    → payload_of a ≡ some c
    → a ≡ answered 200 (some c)
unfolding payload_of
payload_of-200 unreachable c h = cc
payload_of-200 (answered status body) c h = ground arith

fallback_path-home :
    (rest : Text) → fallback_path (codes "/hubs/home" ++ rest) ≡ codes "/hubs/promoted" ++ rest
unfolding strip_prefix starts_with
fallback_path-home rest = refl

module _ (get : Text → Answer MediaContainer) where
  -- Plex's answer to a path is the payload; or the path is /hubs/home with something behind it, Plex
  -- says that there is no such path, and its answer to /hubs/promoted with the same behind it is the
  -- payload.
  abbrev pub Answers : Text → MediaContainer → Type 0
  Answers key_path c =
      (get key_path ≡ answered 200 (some c))
      ⊎ ((rest : Text) × (body : Option MediaContainer) × (key_path ≡ codes "/hubs/home" ++ rest)
          × (get key_path ≡ answered 404 body)
          × (get (codes "/hubs/promoted" ++ rest) ≡ answered 200 (some c)))

  after_answer-Answers :
      (key_path : Text) (c : MediaContainer) (a : Answer MediaContainer)
      → get key_path ≡ a
      → after_answer get key_path a ≡ some c
      → Answers key_path c
  unfolding after_answer
  after_answer-Answers key_path c unreachable e h = cc
  after_answer-Answers key_path c (answered status body) e h =
      elim (Bool-cases ((status == 404) && starts_with (codes "/hubs/home") key_path)) [
        | inr direct ↦ inl (e ∙ payload_of-200 (answered status body) c (rw direct at h))
        | inl moved ↦
            let s : status ≡ 404 = ground arith in
            let split = starts_with-eq (codes "/hubs/home") key_path (ground arith) in
            let there : get (fallback_path key_path) ≡ answered 200 (some c) =
              payload_of-200 (get (fallback_path key_path)) c (rw moved at h) in
            inr (
              split.0,
              body,
              split.1,
              e ∙ ap (λ n. answered n body) s,
              rw (split.1, fallback_path-home split.0) at there,
            )
      ]

  -- A path has a payload exactly if Plex answers it with 200 and a body that parses, or the path is
  -- /hubs/home with something behind it (a query too), Plex answers it with 404, and answers
  -- /hubs/promoted with the same behind it with 200 and a body that parses; and then that body is
  -- the payload.
  pub fetch_hubs_payload_iff :
      (key_path : Text) (c : MediaContainer)
      → (fetch_hubs_payload get key_path ≡ some c) ↔ Answers key_path c
  unfolding fetch_hubs_payload
  fetch_hubs_payload_iff key_path c = (after_answer-Answers key_path c (get key_path) refl, back)
    where
      back : Answers key_path c → after_answer get key_path (get key_path) ≡ some c
      back (inl e) = rw e (unfold after_answer payload_of in refl)
      back (inr (rest, body, home, e, f)) =
          let begins : starts_with (codes "/hubs/home") key_path ≡ true =
            rw home (starts_with_append (codes "/hubs/home") rest) in
          let there : get (fallback_path key_path) ≡ answered 200 (some c) =
            rw (home, fallback_path-home rest) f in
          rw e (unfold after_answer payload_of in rw (begins, there) refl)
