-- ===== src/Runtime/Quota.antt =====
-- quota.service.ts and usage.service.ts. The time is an argument, and so is the month that
-- `currentMonth` makes of it. A failure of the insertion, which `record` logs and swallows, is left out.
use ai_business_operating_sy.Base.{
  Bool, List, M, Option, String, Table, [], concat, create, find, get, if◌then◌else◌, leb, ltb,
  none, remove, return, some, such, true, write, ℕ, ◌&&◌, ◌+◌, ◌-◌, ◌==◌, ◌>>=◌, ◌>>◌, ◌∷◌,
}
use ai_business_operating_sy.Runtime.State.{UsageRecord, QuotaStatus, Cached, RuntimeDb}

-- `CACHE_TTL`, in milliseconds
abbrev pub cache_ttl : ℕ
cache_ttl = 30000

-- The sum of `total_tokens` of an organization in a month
unfoldable pub tokens_used : (org month : String) → List UsageRecord → ℕ
tokens_used org month [] = 0
tokens_used org month (r ∷ rs) =
    let rest = tokens_used org month rs in
    if r.organization_id == org && r.month_bucket == month then r.total_tokens + rest else rest

-- `(sub?.plan?.limits)?.monthlyTokens ?? null`
abbrev pub plan_limit : Option (Option ℕ) → Option ℕ
plan_limit none = none
plan_limit (some l) = l

-- `limit == null ? null : Math.max(0, limit - used)`
abbrev pub remaining_of : Option ℕ → ℕ → Option ℕ
remaining_of none used = none
remaining_of (some l) used = some (l - used)

abbrev pub cache_key : (org month : String) → String
cache_key org month = concat "quota:" (concat org (concat ":" month))

abbrev pub fresh_status : (org month : String) → RuntimeDb → QuotaStatus
fresh_status org month db =
    let used = tokens_used org month db.usage_records in
    let limit = plan_limit (find org db.limits) in
    record { used = used; limit = limit; remaining = remaining_of limit used }

-- `redis.get` and `redis.set` of the cached status
abbrev pub cached_status : (key : String) → ℕ → Table Cached → Option Cached
cached_status key now t = such (λ c. ltb now c.drops_at) (find key t)

abbrev pub status_of : Option Cached → (org month : String) → (now : ℕ) → M RuntimeDb QuotaStatus
status_of (some c) org month now = return c.status
status_of none org month now = do
  db ← get
  let s : QuotaStatus = fresh_status org month db
  write (λ d. record d {
    quota_cache =
        create (cache_key org month) (record { status = s; drops_at = now + cache_ttl })
          (remove (cache_key org month) d.quota_cache);
  })
  return s

-- `getStatus`
unfoldable pub get_status : (org month : String) → (now : ℕ) → M RuntimeDb QuotaStatus
get_status org month now = do
  db ← get
  status_of (cached_status (cache_key org month) now db.quota_cache) org month now

-- `allowed` of `enforce`
abbrev pub is_allowed : QuotaStatus → (estimated : ℕ) → Bool
is_allowed s estimated = elim s.limit [ none ↦ true | some l ↦ leb (s.used + estimated) l ]

-- `enforce`, which returns whether the tokens are allowed
unfoldable pub enforce : (org month : String) → (estimated now : ℕ) → M RuntimeDb Bool
unfolding get_status
enforce org month estimated now = do s ← get_status org month now; return (is_allowed s estimated)

-- `invalidate`
abbrev pub invalidate : (org month : String) → M RuntimeDb (Unit {0})
invalidate org month =
    write (λ d. record d { quota_cache = remove (cache_key org month) d.quota_cache })

-- `record` of usage.service.ts
unfoldable pub record_usage : UsageRecord → (month : String) → M RuntimeDb (Unit {0})
record_usage r month = do
  write (λ d. record d { usage_records = record r { month_bucket = month } ∷ d.usage_records })
  invalidate r.organization_id month
