-- ===== src/Ssrf/Fetch.antt =====
-- `safeFetch`: redirects are followed by hand, and each target is checked before it is contacted.
use ai_business_operating_sy.Base.{
  All, Bool, List, Option, Text, [], arith, if◌then◌else◌, inl, inr, leb, length, ltb, none, refl,
  some, suc, true, zero, ℕ, ◌&&◌, ◌+◌, ◌∷◌, ◌≡◌, ◌≤◌, ◌⊎◌,
}
use ai_business_operating_sy.Ssrf.Guard.{
  Code, Runtime, Environment, SsrfCheck, passed, refused, assert_safe_url,
}

-- What the network answers: a failure, or a status with the Location header, and `res.json()`, which
-- is null where the body is no JSON.
pub data Response : Type 0 where
  failed : Response
  response : (status : ℕ) → (location : Option Text) → (json : Option Text) → Response

pub data FetchCode : Type 0 where
  ssrf_blocked too_many_redirects fetch_failed : FetchCode

pub data SafeFetchResult : Type 0 where
  fetched : (good : Bool) → (status : ℕ) → (body : Option Text) → (hops : ℕ) → SafeFetchResult
  stopped : FetchCode → (hops : ℕ) → SafeFetchResult

abbrev is_redirect : ℕ → Bool
is_redirect status = leb 300 status && ltb status 400

abbrev is_ok : ℕ → Bool
is_ok status = leb 200 status && ltb status 300

-- `!location`
abbrev location_of : Option Text → Option Text
location_of none = none
location_of (some []) = none
location_of (some (c ∷ s)) = some (c ∷ s)

abbrev pub hops_of : SafeFetchResult → ℕ
hops_of (fetched good status body hops) = hops
hops_of (stopped code hops) = hops

-- The result, and the URLs that were contacted, in their order.
pub record Outcome : Type 0 where
  pub result : SafeFetchResult
  pub contacted : List Text

pub data Next : Type 0 where
  done : SafeFetchResult → Next
  redirected : Text → Next

abbrev stop : SafeFetchResult → Outcome
stop r = record { result = r; contacted = [] }

abbrev after_contact : Text → Outcome → Outcome
after_contact url o = record { result = o.result; contacted = url ∷ o.contacted }

-- The runtime's `new URL(location, url).toString()`, and the network, which may answer each hop
-- differently.
module _ (rt : Runtime) (env : Environment) (resolve : Text → Text → Option Text)
    (fetch : ℕ → Text → Response) where
  -- What the loop does with an answer: it ends, or goes on with the redirect's target.
  unfoldable pub after_response : ℕ → Text → Response → Next
  after_response hop url failed = done (stopped fetch_failed hop)
  after_response hop url (response status location json) =
      if is_redirect status
      then elim (location_of location) [
        | none ↦ done (fetched true status none hop)
        | some target ↦ elim (resolve target url) [
          | none ↦ done (stopped ssrf_blocked hop)
          | some url' ↦ redirected url'
        ]
      ]
      else done (fetched (is_ok status) status json hop)

  -- The loop from `hop` on, with `left` = maxHops - hop further hops.
  unfoldable pub fetch_loop : (left : ℕ) → (hop : ℕ) → Text → Outcome
  fetch_loop zero hop url = elim (assert_safe_url rt env url) [
    | refused c ↦ stop (stopped ssrf_blocked hop)
    | passed ↦ elim (after_response hop url (fetch hop url)) [
      | done r ↦ after_contact url (stop r)
      | redirected url' ↦ after_contact url (stop (stopped too_many_redirects (hop + 1)))
    ]
  ]
  fetch_loop (suc left) hop url = elim (assert_safe_url rt env url) [
    | refused c ↦ stop (stopped ssrf_blocked hop)
    | passed ↦ elim (after_response hop url (fetch hop url)) [
      | done r ↦ after_contact url (stop r)
      | redirected url' ↦ after_contact url (fetch_loop left (suc hop) url')
    ]
  ]

  unfoldable pub safe_fetch : (max_hops : ℕ) → Text → Outcome
  unfolding fetch_loop after_response
  safe_fetch max_hops url = fetch_loop max_hops 0 url

  abbrev pub IsChecked : Text → Type 0
  IsChecked u = assert_safe_url rt env u ≡ passed

  check_cases : (c : SsrfCheck) → (c ≡ passed) ⊎ ((k : Code) × (c ≡ refused k))
  check_cases passed = inl refl
  check_cases (refused k) = inr (k, refl)

  next_cases :
      (n : Next) → ((r : SafeFetchResult) × (n ≡ done r)) ⊎ ((u : Text) × (n ≡ redirected u))
  next_cases (done r) = inl (r, refl)
  next_cases (redirected u) = inr (u, refl)

  fetch_loop-IsChecked :
      (left hop : ℕ) (url : Text)
      → All IsChecked (fetch_loop left hop url).contacted
        × (length (fetch_loop left hop url).contacted ≤ left + 1)
  unfolding fetch_loop
  fetch_loop-IsChecked zero hop url = ground arith
  fetch_loop-IsChecked (suc left) hop url = elim (check_cases (assert_safe_url rt env url)) [
    | inr (k, e) ↦ rw (e, fetch_loop) (tt, omega arith)
    | inl e ↦ elim (next_cases (after_response hop url (fetch hop url))) [
      | inl (r, n) ↦ rw (e, fetch_loop) (rw n ((e, tt), omega arith))
      | inr (u, n) ↦
          let (checked, few) = fetch_loop-IsChecked left (suc hop) u in
          rw (e, fetch_loop) (rw n ((e, checked), omega arith))
    ]
  ]

  after_response-hops :
      (hop : ℕ) (url : Text) (r : Response) (x : SafeFetchResult)
      → after_response hop url r ≡ done x
      → hops_of x ≡ hop
  unfolding after_response
  after_response-hops hop url failed x h = ground arith
  after_response-hops hop url (response status location json) x h = ground arith

  fetch_loop-hops :
      (left hop : ℕ) (url : Text) → hops_of (fetch_loop left hop url).result ≤ hop + left + 1
  unfolding fetch_loop
  fetch_loop-hops zero hop url = elim (check_cases (assert_safe_url rt env url)) [
    | inr (k, e) ↦ rw (e, fetch_loop) (omega arith)
    | inl e ↦ elim (next_cases (after_response hop url (fetch hop url))) [
      | inl (r, n) ↦ rw (e, fetch_loop) (rw n (omega (arith, after_response-hops hop url _ r n)))
      | inr (u, n) ↦ rw (e, fetch_loop) (rw n (omega arith))
    ]
  ]
  fetch_loop-hops (suc left) hop url = elim (check_cases (assert_safe_url rt env url)) [
    | inr (k, e) ↦ rw (e, fetch_loop) (omega arith)
    | inl e ↦ elim (next_cases (after_response hop url (fetch hop url))) [
      | inl (r, n) ↦ rw (e, fetch_loop) (rw n (omega (arith, after_response-hops hop url _ r n)))
      | inr (u, n) ↦ rw (e, fetch_loop) (rw n (omega (arith, fetch_loop-hops left (suc hop) u)))
    ]
  ]

  -- Whatever the network answers and wherever it redirects, every URL that is contacted has passed the
  -- guard, at most maxHops + 1 URLs are contacted, and the hop count of the result is at most
  -- maxHops + 1.
  pub safe_fetch-IsChecked :
      (max_hops : ℕ) (url : Text)
      → All IsChecked (safe_fetch max_hops url).contacted
        × (length (safe_fetch max_hops url).contacted ≤ max_hops + 1)
        × (hops_of (safe_fetch max_hops url).result ≤ max_hops + 1)
  unfolding safe_fetch
  safe_fetch-IsChecked max_hops url =
      let (checked, few) = fetch_loop-IsChecked max_hops 0 url in
      (checked, few, omega (arith, fetch_loop-hops max_hops 0 url))
