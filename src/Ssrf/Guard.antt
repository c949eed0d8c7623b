-- ===== src/Ssrf/Guard.antt =====
-- `assertSafeUrl`. The URL parser, `toLowerCase` and `trim` are the runtime's; a text is the list of
-- its characters. The wording of a refusal is left out, its code is kept.
use ai_business_operating_sy.Base.{
  Bool, List, Option, Text, [], any, codes, ends_with, eqb, every, false, has_code, if◌then◌else◌,
  keep, leb, length, ltb, map, none, not, or_default, same_text, some, split_on, starts_with, true,
  ℕ, ◌&&◌, ◌++◌, ◌-◌, ◌||◌, ◌∷◌,
}

pub record Url : Type 0 where
  pub protocol : Text
  pub hostname : Text

pub record Runtime : Type 0 where
  pub parse_url : Text → Option Url
  pub to_lower_case : Text → Text
  pub trim : Text → Text

-- The environment variables that the guard reads.
pub record Environment : Type 0 where
  pub node_env : Option Text
  pub http_allowed_hosts : Option Text

pub data Code : Type 0 where
  invalid_url non_https private_ip blocked_host not_allowlisted : Code

pub data SsrfCheck : Type 0 where
  passed : SsrfCheck
  refused : Code → SsrfCheck

-- A character class as its ranges; the regular expressions are alternatives of sequences of these.
abbrev pub Class : Type 0
Class = List (ℕ × ℕ)

abbrev in_class : Class → ℕ → Bool
in_class [] c = false
in_class ((a, b) ∷ rs) c = (leb a c && leb c b) || in_class rs c

abbrev pub matches_prefix : List Class → Text → Bool
matches_prefix [] s = true
matches_prefix (k ∷ ks) [] = false
matches_prefix (k ∷ ks) (c ∷ s) = in_class k c && matches_prefix ks s

abbrev pub literal : Text → List Class
literal [] = []
literal (c ∷ s) = ((c, c) ∷ []) ∷ literal s

abbrev pub range : ℕ → ℕ → Class
range a b = (a, b) ∷ []

abbrev pub digit : Class
digit = range b'0' b'9'

-- `[0-9a-f]` under the flag i
abbrev hex_digit : Class
hex_digit = (b'0', b'9') ∷ (b'a', b'f') ∷ (b'A', b'F') ∷ []

-- A letter under the flag i, by its small form.
abbrev letter : ℕ → Class
letter c = (c, c) ∷ (c - 32, c - 32) ∷ []

abbrev pub dot : Class
dot = range b'.' b'.'

abbrev colon : Class
colon = range b':' b':'

-- `PRIVATE_V4`, each alternative written out
unfoldable pub private_v4 : List (List Class)
private_v4 =
    literal (codes "10.")
    ∷ literal (codes "127.")
    ∷ (literal (codes "172.1") ++ range b'6' b'9' ∷ dot ∷ [])
    ∷ (literal (codes "172.2") ++ digit ∷ dot ∷ [])
    ∷ (literal (codes "172.3") ++ range b'0' b'1' ∷ dot ∷ [])
    ∷ literal (codes "192.168.")
    ∷ literal (codes "169.254.")
    ∷ literal (codes "0.")
    ∷ (literal (codes "100.6") ++ range b'4' b'9' ∷ dot ∷ [])
    ∷ (literal (codes "100.") ++ range b'7' b'9' ∷ digit ∷ dot ∷ [])
    ∷ (literal (codes "100.1") ++ range b'0' b'1' ∷ digit ∷ dot ∷ [])
    ∷ (literal (codes "100.12") ++ range b'0' b'7' ∷ dot ∷ [])
    ∷ literal (codes "192.0.0.")
    ∷ literal (codes "192.0.2.")
    ∷ (literal (codes "198.1") ++ range b'8' b'9' ∷ dot ∷ [])
    ∷ literal (codes "198.51.100.")
    ∷ literal (codes "203.0.113.")
    ∷ []

abbrev mapped : Text → List Class
mapped octet =
    colon
    ∷ colon
    ∷ letter b'f'
    ∷ letter b'f'
    ∷ letter b'f'
    ∷ letter b'f'
    ∷ colon
    ∷ (literal octet ++ dot ∷ [])

-- `PRIVATE_V6` but for its first entry, which is the whole text "::1"
unfoldable pub private_v6 : List (List Class)
private_v6 =
    (letter b'f'
      ∷ letter b'e'
      ∷ ((b'8', b'9') ∷ (b'a', b'b') ∷ (b'A', b'B') ∷ [])
      ∷ hex_digit
      ∷ colon
      ∷ [])
    ∷ (letter b'f' ∷ letter b'c' ∷ hex_digit ∷ hex_digit ∷ colon ∷ [])
    ∷ (letter b'f' ∷ letter b'd' ∷ hex_digit ∷ hex_digit ∷ colon ∷ [])
    ∷ (letter b'f' ∷ letter b'f' ∷ hex_digit ∷ hex_digit ∷ colon ∷ [])
    ∷ mapped (codes "10")
    ∷ mapped (codes "127")
    ∷ mapped (codes "172")
    ∷ mapped (codes "192")
    ∷ mapped (codes "169")
    ∷ []

unfoldable pub is_private_v4 : Text → Bool
unfolding private_v4
is_private_v4 host = any (λ re. matches_prefix re host) private_v4

unfoldable pub is_private_v6 : Text → Bool
unfolding private_v6
is_private_v6 host = same_text host (codes "::1") || any (λ re. matches_prefix re host) private_v6

abbrev pub short_number : Text → Bool
short_number s = ltb 0 (length s) && leb (length s) 3 && every (λ c. leb b'0' c && leb c b'9') s

-- `looksLikeIpv4`: four groups of one to three digits
unfoldable pub looks_like_ipv4 : Text → Bool
looks_like_ipv4 host =
    let parts = split_on b'.' host in eqb (length parts) 4 && every short_number parts

abbrev pub is_http_allowed : Environment → Bool
is_http_allowed env =
    not (same_text (or_default env.node_env (codes "development")) (codes "production"))

abbrev pub get_allowlist : Runtime → Environment → List Text
get_allowlist rt env =
    keep (λ s. ltb 0 (length s))
      (map (λ s. rt.to_lower_case (rt.trim s))
        (split_on b',' (or_default env.http_allowed_hosts [])))

abbrev tail : Text → Text
tail [] = []
tail (_ ∷ s) = s

-- An entry "*.x" admits the hosts that end in ".x", any other entry only itself.
abbrev pub entry_admits : Text → Text → Bool
entry_admits host entry =
    if starts_with (codes "*.") entry then ends_with (tail entry) host else same_text host entry

abbrev pub is_loopback_name : Text → Bool
is_loopback_name host =
    same_text host (codes "localhost")
    || ends_with (codes ".localhost") host
    || ends_with (codes ".local") host
    || same_text host (codes "0.0.0.0")

abbrev pub is_private_literal : Text → Bool
is_private_literal host =
    if looks_like_ipv4 host
    then is_private_v4 host
    else if has_code b':' host
    then is_private_v6 host
    else false

abbrev pub is_metadata : Text → Bool
is_metadata host =
    same_text host (codes "metadata.google.internal") || same_text host (codes "metadata.azure.com")

abbrev pub allowlisted : List Text → Text → Bool
allowlisted [] host = true
allowlisted (e ∷ es) host = any (entry_admits host) (e ∷ es)

-- The checks on the lowercased host name, in their order.
unfoldable pub check_host : List Text → Text → SsrfCheck
check_host allowlist host =
    if is_loopback_name host
    then refused blocked_host
    else if is_private_literal host
    then refused private_ip
    else if is_metadata host
    then refused blocked_host
    else if allowlisted allowlist host
    then passed
    else refused not_allowlisted

abbrev pub is_http_protocol : Text → Bool
is_http_protocol p = same_text p (codes "http:") || same_text p (codes "https:")

unfoldable pub assert_safe_url : Runtime → Environment → Text → SsrfCheck
unfolding check_host
assert_safe_url rt env raw =
    if ltb 2048 (length raw) then refused invalid_url else elim (rt.parse_url raw) [
      | none ↦ refused invalid_url
      | some url ↦
          if not (is_http_protocol url.protocol)
          then refused invalid_url
          else if same_text url.protocol (codes "http:") && not (is_http_allowed env)
          then refused non_https
          else check_host (get_allowlist rt env) (rt.to_lower_case url.hostname)
    ]
