-- ===== src/Ssrf/Examples.antt =====
-- A runtime whose URLs are bare host names, and a network that redirects to a private address.
use ai_business_operating_sy.Base.{
  All, Option, Text, [], arith, codes, length, none, refl, some, true, ℕ, ◌∷◌, ◌≡◌, ◌≤◌,
}
use ai_business_operating_sy.Ssrf.Guard.{
  Runtime, Environment, passed, check_host, assert_safe_url, looks_like_ipv4, is_private_v4,
  is_private_literal,
}
use ai_business_operating_sy.Ssrf.Fetch.{
  Response, response, stopped, ssrf_blocked, safe_fetch, safe_fetch-IsChecked, hops_of, IsChecked,
}
use ai_business_operating_sy.Ssrf.Policy.{bracketed_host_passes}
use ai_business_operating_sy.Ssrf.Ipv4.{dotted, is_private_literal-dotted}

abbrev bare : Runtime
bare = record {
  parse_url = λ raw. some (record { protocol = codes "https:"; hostname = raw });
  to_lower_case = λ s. s;
  trim = λ s. s;
}

abbrev open_environment : Environment
open_environment = record { node_env = none; http_allowed_hosts = none }

abbrev resolve_as_is : Text → Text → Option Text
resolve_as_is target url = some target

abbrev redirecting : ℕ → Text → Response
redirecting hop url = response 302 (some (codes "10.0.0.1")) none

redirect_blocked :
    safe_fetch bare open_environment resolve_as_is redirecting 5 (codes "example.com")
    ≡ record { result = stopped ssrf_blocked 1; contacted = codes "example.com" ∷ [] }
unfolding safe_fetch assert_safe_url looks_like_ipv4 is_private_v4
redirect_blocked = refl

allowlist_suffix : check_host (codes "*.trusted.io" ∷ []) (codes "a.trusted.io") ≡ passed
unfolding check_host looks_like_ipv4
allowlist_suffix = refl

safe_fetch-IsChecked_example :
    let o = safe_fetch bare open_environment resolve_as_is redirecting 5 (codes "example.com") in
    All (IsChecked bare open_environment resolve_as_is redirecting) o.contacted
    × (length o.contacted ≤ 6)
    × (hops_of o.result ≤ 6)
safe_fetch-IsChecked_example =
    safe_fetch-IsChecked bare open_environment resolve_as_is redirecting 5 (codes "example.com")

bracketed_host_passes_example : check_host [] (codes "[::1]") ≡ passed
bracketed_host_passes_example = bracketed_host_passes (codes "::1]") refl

is_private_literal-dotted_example : is_private_literal (dotted 172 20 0 1) ≡ true
is_private_literal-dotted_example =
    is_private_literal-dotted 172 20 0 1 (omega arith) (omega arith) (omega arith) (omega arith)
