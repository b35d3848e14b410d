-- ===== src/Hub/SingleFlight.antt =====
-- Refreshes of one payload do not run side by side, however the tasks interleave.
use replex.Prelude.{
  ℕ, ap, some, none, ◌+◌, ◌≤◌, ◌≡◌, refl, ◌∙◌, Bool, true, false, not, ◌&&◌, Option, List, [], ◌∷◌,
  ◌++◌, arith, any, filter, if◌then◌else◌,
}
use replex.Prelude.Text.{Text, text_eq, text_eq_iff}
use replex.Cache.{Cache}
use replex.Hub.{
  Hubs, member, insert_key, remove_key, claim_refresh, begin_refresh, refresh_hub_entry,
  end_refresh,
}

-- How often a key stands in a list.
abbrev pub count : Text → List Text → ℕ
count k [] = 0
count k (j ∷ keys) = (if text_eq k j then 1 else 0) + count k keys

pub count-append : (k : Text) (xs ys : List Text) → count k (xs ++ ys) ≡ count k xs + count k ys
count-append k [] ys = omega arith
count-append k (x ∷ xs) ys = omega (arith, count-append k xs ys)

pub member-remove_key :
    (j k : Text) (keys : List Text)
    → member j (remove_key k keys) ≡ (not (text_eq j k) && member j keys)
unfolding member remove_key any filter
member-remove_key j k [] = ground arith
member-remove_key j k (i ∷ keys) =
    ground (arith, member-remove_key j k keys, text_eq_iff i k, text_eq_iff j i, text_eq_iff j k)

abbrev pub at_most_once : Bool → ℕ
at_most_once b = if b then 1 else 0

module _ (Payload : Type 0) (payload_cache : Cache Text Payload) (times : Cache Text ℕ) where
  -- The shared state, and the keys of the tasks that are between their claim and its end.
  pub record System : Type 0 where
    pub hubs : Hubs Payload payload_cache times
    pub working : List Text

  -- A step of one of the tasks. What other code does to the caches changes neither.
  pub data Step : System → System → Type 0 where
    begins :
        (k : Text) (now : ℕ) (s : System) (hubs : Hubs Payload payload_cache times)
        → begin_refresh Payload payload_cache times k now s.hubs ≡ (true, hubs)
        → Step s (record { hubs = hubs; working = k ∷ s.working })
    gives_up :
        (k : Text) (now : ℕ) (s : System) (hubs : Hubs Payload payload_cache times)
        → begin_refresh Payload payload_cache times k now s.hubs ≡ (false, hubs)
        → Step s (record { hubs = hubs; working = s.working })
    fetches :
        (k : Text) (now : ℕ) (answer : Option Payload) (s : System)
        → Step s
            (record s { hubs = refresh_hub_entry Payload payload_cache times k now answer s.hubs })
    ends :
        (k : Text) (before after : List Text) (s : System)
        → s.working ≡ before ++ k ∷ after
        → Step s (record {
          hubs = end_refresh Payload payload_cache times k s.hubs;
          working = before ++ after;
        })

  pub data Reachable : System → Type 0 where
    starts : (s : System) → s.hubs.inflight ≡ [] → s.working ≡ [] → Reachable s
    goes_on : (s r : System) → Reachable s → Step s r → Reachable r

  -- The set of running refreshes tells which keys have a task, and none has two.
  abbrev pub IsExact : System → Type 0
  IsExact s = (j : Text) → count j s.working ≡ at_most_once (member j s.hubs.inflight)

  begin_refresh_new :
      (k : Text) (now : ℕ) (s hubs : Hubs Payload payload_cache times)
      → begin_refresh Payload payload_cache times k now s ≡ (true, hubs)
      → (member k s.inflight ≡ false) × (hubs.inflight ≡ k ∷ s.inflight)
  unfolding begin_refresh claim_refresh insert_key
  begin_refresh_new k now s hubs e = (ground arith, ground arith)

  begin_refresh_no :
      (k : Text) (now : ℕ) (s hubs : Hubs Payload payload_cache times)
      → begin_refresh Payload payload_cache times k now s ≡ (false, hubs)
      → hubs.inflight ≡ s.inflight
  unfolding begin_refresh claim_refresh insert_key
  begin_refresh_no k now s hubs e = ground arith

  refresh_hub_entry_inflight :
      (k : Text) (now : ℕ) (answer : Option Payload) (s : Hubs Payload payload_cache times)
      → (refresh_hub_entry Payload payload_cache times k now answer s).inflight ≡ s.inflight
  unfolding refresh_hub_entry
  refresh_hub_entry_inflight k now none s = refl
  refresh_hub_entry_inflight k now (some payload) s = refl

  IsExact-Step : (s r : System) → Step s r → IsExact s → IsExact r
  IsExact-Step _ _ (begins k now s hubs e) h j =
      let new = begin_refresh_new k now s.hubs hubs e in
      rw (new.1) (unfold member any in ground (arith, h j, new.0, text_eq_iff j k))
  IsExact-Step _ _ (gives_up k now s hubs e) h j = rw (begin_refresh_no k now s.hubs hubs e) (h j)
  IsExact-Step _ _ (fetches k now answer s) h j =
      rw (refresh_hub_entry_inflight k now answer s.hubs) (h j)
  IsExact-Step _ _ (ends k before after s e) h j =
      unfold end_refresh in
      let all : count j s.working ≡ count j before + count j (k ∷ after) =
        ap (count j) e ∙ count-append j before (k ∷ after) in
      rw (member-remove_key j k s.hubs.inflight)
        (ground (arith, h j, all, count-append j before after))

  IsExact-Reachable : (s : System) → Reachable s → IsExact s
  IsExact-Reachable _ (starts s none_running none_working) j =
      unfold member any in rw (none_running, none_working) refl
  IsExact-Reachable _ (goes_on s r before step) j =
      IsExact-Step s r step (IsExact-Reachable s before) j

  -- Whatever the tasks do and in whatever order, at most one of them refreshes a given payload.
  pub Reachable-single_flight : (s : System) (k : Text) → Reachable s → count k s.working ≤ 1
  Reachable-single_flight s k reached = ground (arith, IsExact-Reachable s reached k)
