-- ===== src/CacheKeys/Sharing.antt =====
-- Exactly which requests for hubs share a cached payload.
use mathlib.Core.List.{Permᴰ, Memᴰ}
use mathlib.Core.List.Permᴰ
use replex.Prelude.{
  ◌≡◌, ◌≢◌, refl, sym, ap, ◌∙◌, ◌↔◌, ◌⊎◌, inl, inr, true, Option, none, some, List, [], ◌∷◌, All,
  All-append, All-mem, arith, map_or, Option-cases,
}
use replex.Prelude.Sorted.{sort, leb_text, Permᴰ-sort}
use replex.Prelude.Text.{Text, codes, split}
use replex.Hub.{token_scope, is_global, hub_cache_key}
use replex.Hub.Keys.{NoColon, hub_cache_key_shared, hub_cache_key_same}
use replex.CacheKeys.{
  join, canonical_ids, picked, selection_names, selection_parts, cache_key_for_request,
}
use replex.CacheKeys.Selections.{
  NoChar, IsId, SameSelection, asked, split-join, canonical_ids-join, cache_key_for_request-Permᴰ,
}
use replex.CacheKeys.Encoding.{
  IsPart, keyed, keyed-inj, cache_key-keyed, Memᴰ-Permᴰ, All-of_mem, All-sort, picked-mem,
  mem-picked,
}

-- A selection of libraries, or a number: one id or more, and none with `&`.
abbrev pub IsSelection : List Text → Type 0
IsSelection ids = (ids ≢ []) × All IsId ids × All (NoChar b'&') ids

-- How a selection is written, where there is one.
abbrev pub written : Option (List Text) → Option Text
written chosen = map_or chosen none (λ ids. some (join (codes ",") ids))

abbrev pub IsChosen : Option (List Text) → Type 0
IsChosen none = Unit
IsChosen (some ids) = IsSelection ids

-- What a request asks for under each name of a parameter is a selection, or nothing.
abbrev pub Asks : (Text → Option Text) → (Text → Option (List Text)) → Type 0
Asks get chosen =
    All (λ name. (asked get name ≡ written (chosen name)) × IsChosen (chosen name)) selection_names

-- Nothing both times, or the same ids, in some order.
abbrev pub SameIds : Option (List Text) → Option (List Text) → Type 0
SameIds none none = Unit
SameIds none (some jds) = ⊥
SameIds (some ids) none = ⊥
SameIds (some ids) (some jds) = Permᴰ ids jds

NoChar-join : (ids : List Text) → All (NoChar b'&') ids → NoChar b'&' (join (codes ",") ids)
unfolding join
NoChar-join [] h = tt
NoChar-join (s ∷ []) h = h.0
NoChar-join (s ∷ t ∷ ids) h =
    All-append (λ d. d ≢ b'&') s (b',' ∷ join (codes ",") (t ∷ ids)) h.0
      ((λ e. ground arith), NoChar-join (t ∷ ids) h.1)

NoComma-ids : (ids : List Text) → All IsId ids → All (NoChar b',') ids
NoComma-ids [] h = tt
NoComma-ids (s ∷ ids) h = (h.0.0, NoComma-ids ids h.1)

sort_some : (ids : List Text) → ids ≢ [] → sort leb_text ids ≢ []
sort_some [] h e = h refl
sort_some (s ∷ ids) h e =
    let m : Memᴰ s (sort leb_text (s ∷ ids)) =
      Memᴰ-Permᴰ (Permᴰ-sort leb_text (s ∷ ids)) (Memᴰ.head refl) in
    elim (rw e at m) [ ]

split-joined :
    (ids : List Text) → ids ≢ [] → All (NoChar b',') ids → split b',' (join (codes ",") ids) ≡ ids
split-joined [] h k = absurd (h refl)
split-joined (s ∷ ids) h k = split-join b',' s ids k

-- Two selections that are written alike once they are in order have the same ids.
joined-Permᴰ :
    (ids jds : List Text)
    → IsSelection ids
    → IsSelection jds
    → canonical_ids (join (codes ",") ids) ≡ canonical_ids (join (codes ",") jds)
    → Permᴰ ids jds
joined-Permᴰ ids jds h k e =
    let sorted_ids = sort leb_text ids in
    let sorted_jds = sort leb_text jds in
    let alike : join (codes ",") sorted_ids ≡ join (codes ",") sorted_jds =
      sym (canonical_ids-join ids h.1) ∙ e ∙ canonical_ids-join jds k.1 in
    let same : sorted_ids ≡ sorted_jds =
      sym (
        split-joined sorted_ids (sort_some ids h.0)
          (All-sort (NoChar b',') ids (NoComma-ids ids h.1)))
      ∙ ap (split b',') alike
      ∙ split-joined sorted_jds (sort_some jds k.0)
          (All-sort (NoChar b',') jds (NoComma-ids jds k.1)) in
    Permᴰ.trans (Permᴰ-sort leb_text ids) (rw same (Permᴰ.symm (Permᴰ-sort leb_text jds)))

module _ (get : Text → Option Text) (chosen : Text → Option (List Text))
    (asks : Asks get chosen) where
  -- What a request asks for by a name is a selection.
  asked-some :
      (name w : Text)
      → Memᴰ name selection_names
      → asked get name ≡ some w
      → (ids : List Text) × (chosen name ≡ some ids) × (w ≡ join (codes ",") ids) × IsSelection ids
  asked-some name w m there =
      let a = All-mem (λ n. (asked get n ≡ written (chosen n)) × IsChosen (chosen n)) name asks m in
      elim (Option-cases (chosen name)) [
        | inl nothing ↦ absurd (ground (arith, a.0, there, nothing))
        | inr (ids, given) ↦
            let is : IsChosen (some ids) = rw given at a.1 in
            (ids, given, ground (arith, a.0, there, given), is)
      ]

  some-asked :
      (name : Text) (ids : List Text)
      → Memᴰ name selection_names
      → chosen name ≡ some ids
      → (asked get name ≡ some (join (codes ",") ids)) × IsSelection ids
  some-asked name ids m given =
      let a = All-mem (λ n. (asked get n ≡ written (chosen n)) × IsChosen (chosen n)) name asks m in
      (a.0 ∙ rw given refl, rw given at a.1)

  selection_parts-IsPart : All IsPart (selection_parts get)
  unfolding selection_parts
  selection_parts-IsPart = All-of_mem IsPart (selection_parts get) (λ p m.
      let r = picked-mem get selection_names p.0 p.1 (
        Memᴰ-Permᴰ (Permᴰ.symm (Permᴰ-sort (λ a b. leb_text a.0 b.0) (picked get selection_names)))
          m) in
      let ids = asked-some p.0 r.1 r.0 r.2 in
      let v : p.1 ≡ join (codes ",") (sort leb_text ids.0) =
        r.3 ∙ ap canonical_ids ids.2 ∙ canonical_ids-join ids.0 ids.3.1 in
      (r.0, rw v (NoChar-join (sort leb_text ids.0) (All-sort (NoChar b'&') ids.0 ids.3.2))))

-- With the same parts, what one request selects the other selects too.
parts-Permᴰ :
    (get other : Text → Option Text) (chosen others : Text → Option (List Text))
    → Asks get chosen
    → Asks other others
    → selection_parts get ≡ selection_parts other
    → (name : Text) (ids : List Text) → Memᴰ name selection_names
    → chosen name ≡ some ids
    → (jds : List Text) × (others name ≡ some jds) × Permᴰ ids jds
unfolding selection_parts
parts-Permᴰ get other chosen others h k e name ids m given =
    let le = λ (a b : Text × Text). leb_text a.0 b.0 in
    let one = some-asked get chosen h name ids m given in
    let here : Memᴰ (name, canonical_ids (join (codes ",") ids)) (selection_parts get) =
      Memᴰ-Permᴰ (Permᴰ-sort le (picked get selection_names))
        (mem-picked get selection_names name (join (codes ",") ids) m one.0) in
    let there =
      picked-mem other selection_names name (canonical_ids (join (codes ",") ids))
        (Memᴰ-Permᴰ (Permᴰ.symm (Permᴰ-sort le (picked other selection_names))) (rw e at here)) in
    let jds = asked-some other others k name there.1 m there.2 in
    (jds.0, jds.1, joined-Permᴰ ids jds.0 one.1 jds.3 (there.3 ∙ ap canonical_ids jds.2))

parts-SameIds :
    (get other : Text → Option Text) (chosen others : Text → Option (List Text))
    → Asks get chosen
    → Asks other others
    → selection_parts get ≡ selection_parts other
    → All (λ name. SameIds (chosen name) (others name)) selection_names
parts-SameIds get other chosen others h k e =
    All-of_mem (λ name. SameIds (chosen name) (others name)) selection_names
      (λ name m. elim (Option-cases (chosen name)) [
        | inr (ids, given) ↦
            let r = parts-Permᴰ get other chosen others h k e name ids m given in
            rw (given, r.1) r.2
        | inl nothing ↦ elim (Option-cases (others name)) [
          | inl neither ↦ rw (nothing, neither) tt
          | inr (jds, given) ↦
              let r = parts-Permᴰ other get others chosen k h (sym e) name jds m given in
              absurd (ground (arith, r.1, nothing))
        ]
      ])

same-selection :
    (o p : Option Text) (chosen others : Option (List Text))
    → (o ≡ written chosen) × IsChosen chosen
    → (p ≡ written others) × IsChosen others
    → SameIds chosen others
    → SameSelection o p
same-selection o p none none h k s = inl (h.0 ∙ sym k.0)
same-selection o p none (some jds) h k s = elim s [ ]
same-selection o p (some ids) none h k s = elim s [ ]
same-selection o p (some ids) (some jds) h k s = inr (ids, jds, h.1.1, k.1.1, s, h.0, k.0)

SameIds-selections :
    (get other : Text → Option Text) (chosen others : Text → Option (List Text))
    → Asks get chosen
    → Asks other others
    → All (λ name. SameIds (chosen name) (others name)) selection_names
    → All (λ name. SameSelection (asked get name) (asked other name)) selection_names
SameIds-selections get other chosen others h k s =
    All-of_mem (λ name. SameSelection (asked get name) (asked other name)) selection_names
      (λ name m.
        same-selection (asked get name) (asked other name) (chosen name) (others name)
          (All-mem (λ n. (asked get n ≡ written (chosen n)) × IsChosen (chosen n)) name h m)
          (All-mem (λ n. (asked other n ≡ written (others n)) × IsChosen (others n)) name k m)
          (All-mem (λ n. SameIds (chosen n) (others n)) name s m))

-- With digests of tokens that have no colon, for two requests with paths without `?`, each of whose
-- parameters of the selection and of the paging is absent or one or more ids (not empty, without a
-- comma, an `&` or space around them) with commas between them: they share a cached hub payload
-- exactly if they have the same path, their tokens have the same scope or the key is one that all
-- accounts share, and each of these parameters is absent in both or has the same ids in some order;
-- whichever of the two spellings of a parameter's name they use.
pub hub_cache_key_iff :
    (fingerprint : Text → Text) (get other : Text → Option Text)
    (chosen others : Text → Option (List Text)) (path other_path : Text) (t u : Option Text)
    → ((token : Text) → NoColon (fingerprint token))
    → Asks get chosen
    → Asks other others
    → NoChar b'?' path
    → NoChar b'?' other_path
    → (hub_cache_key fingerprint (cache_key_for_request path get) t
        ≡ hub_cache_key fingerprint (cache_key_for_request other_path other) u)
      ↔ ((path ≡ other_path)
          × ((is_global (cache_key_for_request path get) ≡ true)
              ⊎ (token_scope fingerprint t ≡ token_scope fingerprint u))
          × All (λ name. SameIds (chosen name) (others name)) selection_names)
hub_cache_key_iff fingerprint get other chosen others path other_path t u hex h k free free_too =
    (apart, together)
  where
    apart :
        hub_cache_key fingerprint (cache_key_for_request path get) t
          ≡ hub_cache_key fingerprint (cache_key_for_request other_path other) u
        → (path ≡ other_path)
          × ((is_global (cache_key_for_request path get) ≡ true)
              ⊎ (token_scope fingerprint t ≡ token_scope fingerprint u))
          × All (λ name. SameIds (chosen name) (others name)) selection_names
    apart e =
        let shared =
          hub_cache_key_shared fingerprint hex (cache_key_for_request path get)
            (cache_key_for_request other_path other) t u e in
        let keys : keyed path (selection_parts get) ≡ keyed other_path (selection_parts other) =
          sym (cache_key-keyed path get) ∙ shared.0 ∙ cache_key-keyed other_path other in
        let same =
          keyed-inj path other_path (selection_parts get) (selection_parts other) free free_too
            (selection_parts-IsPart get chosen h) (selection_parts-IsPart other others k) keys in
        (same.0, shared.1, parts-SameIds get other chosen others h k same.1)

    together :
        (path ≡ other_path)
          × ((is_global (cache_key_for_request path get) ≡ true)
              ⊎ (token_scope fingerprint t ≡ token_scope fingerprint u))
          × All (λ name. SameIds (chosen name) (others name)) selection_names
        → hub_cache_key fingerprint (cache_key_for_request path get) t
          ≡ hub_cache_key fingerprint (cache_key_for_request other_path other) u
    together (same_path, scope, ids) =
        let keys =
          cache_key_for_request-Permᴰ get other path path
            (SameIds-selections get other chosen others h k ids) in
        hub_cache_key_same fingerprint hex (cache_key_for_request path get) t u scope
        ∙ ap (λ p. hub_cache_key fingerprint p u)
            (keys.0 ∙ ap (λ p. cache_key_for_request p other) same_path)
