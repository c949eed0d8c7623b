-- ===== src/Runtime/Admission.antt =====
-- The checks of a run before anything is called: `admit`.
use ai_business_operating_sy.Base.{
  Bool-cases, Option, Option-cases, Result, String, Table, ap, arith, bad_request, bind_result,
  create, ensure, eq_refl, err, false, find, inl, inr, is_some, none, ok, refl, remove, return,
  some, such, such-eq-some, true, ℕ, ◌*◌, ◌==◌, ◌>>◌, ◌||◌, ◌≡◌,
}
use ai_business_operating_sy.Agents.State.{Agent, is_active, is_archived}
use ai_business_operating_sy.Runtime.State.{QuotaStatus, Cached, RuntimeDb}
use ai_business_operating_sy.Runtime.Registry.{Outside}
use ai_business_operating_sy.Runtime.Executor.{Checks}
use ai_business_operating_sy.Runtime.Quota.{
  cached_status, cache_key, tokens_used, fresh_status, status_of, is_allowed, get_status, enforce,
}
use ai_business_operating_sy.Runtime.Loop.{AgentRunContext, Gateway}
use ai_business_operating_sy.Runtime.Run.{admit}

-- Nothing is called, and nothing that was said, used or remembered has changed.
pub record Untouched (db d : RuntimeDb) : Type 0 where
  pub messages : d.messages ≡ db.messages
  pub usage_records : d.usage_records ≡ db.usage_records
  pub short_term : d.short_term ≡ db.short_term
  pub effects : d.effects ≡ db.effects

pub Untouched-refl : (db : RuntimeDb) → Untouched db db
Untouched-refl db = record {
  messages = refl;
  usage_records = refl;
  short_term = refl;
  effects = refl;
}

abbrev pub status_from : Option Cached → QuotaStatus → QuotaStatus
status_from none fresh = fresh
status_from (some c) fresh = c.status

-- What `getStatus` returns: the cached status, or else one that is made of the records
abbrev pub status_now : (org month : String) → (now : ℕ) → RuntimeDb → QuotaStatus
status_now org month now db =
    status_from (cached_status (cache_key org month) now db.quota_cache) (fresh_status org month db)

-- What `getStatus` leaves: the database, or one where the status that it made is cached
abbrev pub with_cached : (org month : String) → (now : ℕ) → Option Cached → RuntimeDb → RuntimeDb
with_cached org month now none db = (status_of none org month now db).1
with_cached org month now (some c) db = db

pub get_status_lem :
    (org month : String) (now : ℕ) (db : RuntimeDb)
    → get_status org month now db ≡ (
      ok (status_now org month now db),
      with_cached org month now (cached_status (cache_key org month) now db.quota_cache) db,
    )
unfolding get_status
get_status_lem org month now db =
    elim (Option-cases (cached_status (cache_key org month) now db.quota_cache)) [
      | inl old ↦ rw old refl
      | inr (c, live) ↦ rw live refl
    ]

-- A cached status says what the records sum up to.
abbrev pub IsExact : (org month : String) → RuntimeDb → Type 0
IsExact org month db =
    (c : Cached)
    → find (cache_key org month) db.quota_cache ≡ some c
    → c.status.used ≡ tokens_used org month db.usage_records

-- What the checks of a run leave
abbrev pub Asked : (org month : String) → RuntimeDb → RuntimeDb → Type 0
Asked org month db d = Untouched db d × (IsExact org month db → IsExact org month d)

pub Asked-refl : (org month : String) (db : RuntimeDb) → Asked org month db db
Asked-refl org month db = (Untouched-refl db, λ x. x)

created_row :
    (k : String) (a b : Cached) (t : Table Cached) → find k (create k a t) ≡ some b → b ≡ a
unfolding find create
created_row k a b t h = ground (arith, eq_refl k)

with_cached-IsExact :
    (org month : String) (now : ℕ) (c : Option Cached) (db : RuntimeDb)
    → IsExact org month db
    → IsExact org month (with_cached org month now c db)
with_cached-IsExact org month now none db x c h =
    ap (λ b. b.status.used)
      (created_row (cache_key org month) _ c (remove (cache_key org month) db.quota_cache) h)
with_cached-IsExact org month now (some o) db x c h = x c h

with_cached-Untouched :
    (org month : String) (now : ℕ) (c : Option Cached) (db : RuntimeDb)
    → Untouched db (with_cached org month now c db)
with_cached-Untouched org month now none db = record {
  messages = refl;
  usage_records = refl;
  short_term = refl;
  effects = refl;
}
with_cached-Untouched org month now (some c) db = Untouched-refl db

with_cached-Asked :
    (org month : String) (now : ℕ) (c : Option Cached) (db : RuntimeDb)
    → Asked org month db (with_cached org month now c db)
with_cached-Asked org month now c db =
    (with_cached-Untouched org month now c db, with_cached-IsExact org month now c db)

module _ (out : Outside) (checks : Checks) (gateway : Gateway) (task_ids : ℕ → String) where
  -- Which agents a run is admitted for
  pub record IsAdmissible (ctx : AgentRunContext) (month : String) (now : ℕ) (db : RuntimeDb)
      (a : Agent) : Type 0 where
    pub found : find ctx.agent_id db.agents ≡ some a
    pub own : a.organization_id == ctx.organization_id ≡ true
    pub kept : (is_archived a.status || is_some a.deleted_at) ≡ false
    pub deployed : (ctx.dry_run || is_active a.status) ≡ true
    pub count : ℕ
    pub counted : gateway.count_tokens a.settings.model_provider ctx.message ≡ some count
    pub within : is_allowed (status_now ctx.organization_id month now db) (count * 4) ≡ true

  abbrev pub Admits : AgentRunContext → String → ℕ → RuntimeDb → Result Agent × RuntimeDb → Type 0
  Admits ctx month now db (err e, d) = Asked ctx.organization_id month db d
  Admits ctx month now db (ok a, d) =
      Asked ctx.organization_id month db d × IsAdmissible ctx month now db a

  -- The quota's check, as the last of them
  quota-Admits :
      (ctx : AgentRunContext) (month : String) (now n : ℕ) (a : Agent) (db : RuntimeDb)
      → (is_allowed (status_now ctx.organization_id month now db) (n * 4) ≡ true
          → IsAdmissible ctx month now db a)
      → Admits ctx month now db (
          bind_result
            (enforce ctx.organization_id month (n * 4) now db)
            (λ allowed. ensure allowed (bad_request "QUOTA_EXCEEDED") >> return a))
  unfolding enforce
  quota-Admits ctx month now n a db k =
      let d =
        with_cached ctx.organization_id month now
          (cached_status (cache_key ctx.organization_id month) now db.quota_cache) db in
      rw (get_status_lem ctx.organization_id month now db)
        (elim (Bool-cases (is_allowed (status_now ctx.organization_id month now db) (n * 4))) [
          | inl within ↦ rw within (with_cached-Asked ctx.organization_id month now _ db, k within)
          | inr over ↦ rw over (with_cached-Asked ctx.organization_id month now _ db)
        ])

  pub admit-Admits :
      (ctx : AgentRunContext) (month : String) (now : ℕ) (db : RuntimeDb)
      → Admits ctx month now db (admit out checks gateway task_ids ctx month now db)
  unfolding admit
  admit-Admits ctx month now db =
      elim (Option-cases
        (such (λ a. a.organization_id == ctx.organization_id) (find ctx.agent_id db.agents))) [
          | inl missing ↦ rw missing (Asked-refl ctx.organization_id month db)
          | inr (a, e) ↦ rw e (elim (Bool-cases (is_archived a.status || is_some a.deleted_at)) [
            | inl archived ↦ rw archived (Asked-refl ctx.organization_id month db)
            | inr kept ↦ rw kept (elim (Bool-cases (ctx.dry_run || is_active a.status)) [
              | inr idle ↦ rw idle (Asked-refl ctx.organization_id month db)
              | inl deployed ↦
                  rw deployed
                    (elim (Option-cases
                      (gateway.count_tokens a.settings.model_provider ctx.message)) [
                        | inl uncounted ↦ rw uncounted (Asked-refl ctx.organization_id month db)
                        | inr (n, counted) ↦ rw counted (
                            quota-Admits ctx month now n a db (λ within.
                              let (found, own) =
                                such-eq-some (λ b. b.organization_id == ctx.organization_id)
                                  (find ctx.agent_id db.agents) a e in
                              record {
                                found = found;
                                own = own;
                                kept = kept;
                                deployed = deployed;
                                count = n;
                                counted = counted;
                                within = within;
                              }))
                      ])
            ])
          ])
        ]
