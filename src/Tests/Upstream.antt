-- ===== src/Tests/Upstream.antt =====
-- Addresses of servers, with one fixed URL library: `http://tv/` and what a request's host encodes.
use replex.Prelude.{find, ◌≡◌, refl, ◌⊎◌, true, none, some, [], ◌∷◌, Memᴰ, unwrap_or, if◌then◌else◌}
use replex.Prelude.Int.{pos, ◌≤ℤ◌}
use replex.Prelude.Text.{Text, codes, text_eq, starts_with, is_text}
use replex.Policy.Limit.{p480}
use replex.Policy.Entries.{matched_entry, resolve_policy}
use replex.Config.{Config}
use replex.Config.Upstream.{UrlLibrary, trim_slashes, approved, allows_upstream_host}
use replex.Config.Validate.{ok, validate}
use replex.Config.Validate.Sound.{validate-positive_cap, validate-allows_upstream_host}
use replex.Security.Request.{Decoders, RequestContext, handle_request}
use replex.Security.Request.Approved.{IsApproved, handle_request-IsApproved}
use replex.Tests.Data.{ann, ann_entry}
use replex.Tests.Accounts.{settings}
use replex.Tests.Storage.{digest}

-- Addresses of the form `http://` and a path, which is what is kept of them.
abbrev url : UrlLibrary
url = record {
  Url = Text;
  parse = λ s. if starts_with (codes "http://") s then some s else none;
  scheme = λ u. codes "http";
  host_str = λ u. some (codes "tv");
  path = λ u. codes "/";
  query = λ u. none;
  fragment = λ u. none;
  set_path = λ p u. u;
  print = λ u. u;
  path-set_path = λ u some_left. absurd (some_left (unfold trim_slashes in refl));
  path-set_path_empty = λ u. refl;
}

abbrev served : Config
served = record settings {
  host = some (codes "http://plex/");
  allowed_upstream_hosts = some (codes "http://tv/" ∷ []);
  user_resolution_policies = ann_entry ∷ [];
}

accepted : validate url served none ≡ ok
unfolding validate starts_with
accepted = refl

validate-positive_cap_example : pos 1 ≤ℤ pos 10000
validate-positive_cap_example =
    validate-positive_cap url served none p480 (codes "Kids" ∷ []) ann (pos 10000) accepted
      (unfold resolve_policy matched_entry find is_text text_eq in refl)

validate-allows_upstream_host_example : allows_upstream_host url served (codes "http://tv/") ≡ true
validate-allows_upstream_host_example =
    validate-allows_upstream_host url served none (codes "http://tv/") accepted
      (unfold approved in Memᴰ.tail (Memᴰ.head refl))

-- What every name encodes is the address of the approved server, with another slash.
abbrev decoders : Decoders
decoders = record { decode = λ s. some s; from_utf8 = λ bytes. some (codes " http://tv// ") }

abbrev to_tv : RequestContext
to_tv = record { upstream_host = codes "http://tv"; number = 5; token_scope = codes "a" }

handle_request-IsApproved_example :
    (to_tv.upstream_host ≡ unwrap_or served.host []) ⊎ IsApproved url served to_tv.upstream_host
handle_request-IsApproved_example =
    handle_request-IsApproved url served decoders digest (some (codes "ORSXG5A.replex.stream"))
      (some (codes "t")) 5 6 to_tv (unfold handle_request starts_with in refl)
