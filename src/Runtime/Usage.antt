-- ===== src/Runtime/Usage.antt =====
-- The usage that a run of agent-runtime.service.ts records, and the status of the quota after it.
use ai_business_operating_sy.Base.{
  All, Bool, Bool-cases, Exception, List, Option-cases, Result, String, Table, [], ap, arith, err,
  false, find, inl, inr, ltb, ok, refl, some, subst, such-eq-some, sym, true, ℕ, ◌+◌, ◌∙◌, ◌∷◌, ◌≡◌,
}
use ai_business_operating_sy.Runtime.State.{QuotaStatus, RuntimeDb}
use ai_business_operating_sy.Runtime.Registry.{Outside}
use ai_business_operating_sy.Runtime.Executor.{Checks}
use ai_business_operating_sy.Runtime.Quota.{cached_status, cache_key, tokens_used, get_status}
use ai_business_operating_sy.Runtime.Loop.{AgentRunContext, Gateway, AgentRunResult}
use ai_business_operating_sy.Runtime.Run.{user_message, run_agent}
use ai_business_operating_sy.Runtime.Frame.{Frame}
use ai_business_operating_sy.Runtime.Admission.{IsExact, get_status_lem, status_now}
use ai_business_operating_sy.Runtime.Cases.{
  begun, started-usage, started-cache, run_admitted_cases, run_agent_cases, finish_cases,
}

-- A run with the ids of its messages and its time
pub record Attempt : Type 0 where
  pub ctx : AgentRunContext
  pub user_id : String
  pub message_id : String
  pub now : ℕ

module _ (out : Outside) (checks : Checks) (gateway : Gateway) (task_ids : ℕ → String) where
  -- The tokens that the month's usage grows by
  abbrev pub billed : (dry : Bool) → Result AgentRunResult → ℕ
  billed true r = 0
  billed false (err e) = 0
  billed false (ok r) = r.total_tokens

  -- The usage of the organization in the month grows by the tokens of a run that returns and is no dry
  -- run, and by none for any other run.
  pub run_agent-tokens_used :
      (ctx : AgentRunContext) (month user_id message_id : String) (now : ℕ) (db : RuntimeDb)
      → let r = run_agent out checks gateway task_ids ctx month user_id message_id now db in
        tokens_used ctx.organization_id month r.1.usage_records
        ≡ billed ctx.dry_run r.0 + tokens_used ctx.organization_id month db.usage_records
  run_agent-tokens_used ctx month user_id message_id now db =
      run_agent_cases out checks gateway task_ids Counted ctx month user_id message_id now db
        (λ e d asked. fails e d asked.0.usage_records)
        (λ a d asked admissible.
          let same =
            started-usage out checks gateway task_ids ctx.dry_run
              (user_message out checks gateway task_ids ctx user_id) d
            ∙ asked.0.usage_records in
          run_admitted_cases out checks gateway task_ids Counted ctx month user_id message_id a d
            (λ e d' f. fails e d' (f.usage_records ∙ same))
            (λ s d' f.
              finish_cases out checks gateway task_ids Counted ctx month message_id s d'
                (λ dry. rw (dry, f.usage_records ∙ same) (omega arith))
                (λ e wet stored. rw (wet, stored.used, f.usage_records ∙ same) refl)))
    where
      Counted : Result AgentRunResult × RuntimeDb → Type 0
      Counted r =
          tokens_used ctx.organization_id month r.1.usage_records
          ≡ billed ctx.dry_run r.0 + tokens_used ctx.organization_id month db.usage_records

      fails :
          (e : Exception) (d : RuntimeDb) → d.usage_records ≡ db.usage_records → Counted (err e, d)
      fails e d same = elim (Bool-cases ctx.dry_run) [
        | inl dry ↦ rw (dry, same) (omega arith)
        | inr wet ↦ rw (wet, same) (omega arith)
      ]

  -- A run keeps the cached status of the month exact.
  pub run_agent-IsExact :
      (ctx : AgentRunContext) (month user_id message_id : String) (now : ℕ) (db : RuntimeDb)
      → IsExact ctx.organization_id month db
      → IsExact ctx.organization_id month
          (run_agent out checks gateway task_ids ctx month user_id message_id now db).1
  run_agent-IsExact ctx month user_id message_id now db x =
      run_agent_cases out checks gateway task_ids Exact ctx month user_id message_id now db
        (λ e d asked. asked.1 x)
        (λ a d asked admissible.
          run_admitted_cases out checks gateway task_ids Exact ctx month user_id message_id a d
            (λ e d' f. framed d d' (asked.1 x) f)
            (λ s d' f.
              finish_cases out checks gateway task_ids Exact ctx month message_id s d'
                (λ dry. framed d d' (asked.1 x) f)
                (λ e wet stored. stored.exact (framed d d' (asked.1 x) f))))
    where
      Exact : Result AgentRunResult × RuntimeDb → Type 0
      Exact r = IsExact ctx.organization_id month r.1

      framed :
          (d d' : RuntimeDb)
          → IsExact ctx.organization_id month d
          → Frame 10 (begun out checks gateway task_ids ctx user_id d) d'
          → IsExact ctx.organization_id month d'
      framed d d' y f c h =
          let m = user_message out checks gateway task_ids ctx user_id in
          rw (f.usage_records ∙ started-usage out checks gateway task_ids ctx.dry_run m d) (
            y c (
              ap (λ t. find (cache_key ctx.organization_id month) t)
                (sym (f.quota_cache ∙ started-cache out checks gateway task_ids ctx.dry_run m d))
              ∙ h))

  -- Runs one after the other
  unfoldable pub run_all : (month : String) → List Attempt → RuntimeDb → RuntimeDb
  run_all month [] db = db
  run_all month (r ∷ rs) db =
      run_all month rs
        (run_agent out checks gateway task_ids r.ctx month r.user_id r.message_id r.now db).1

  run_all-IsExact :
      (org month : String) (rs : List Attempt) (db : RuntimeDb)
      → All (λ r. r.ctx.organization_id ≡ org) rs
      → IsExact org month db
      → IsExact org month (run_all month rs db)
  unfolding run_all
  run_all-IsExact org month [] db own x = x
  run_all-IsExact org month (r ∷ rs) db (same, own) x =
      run_all-IsExact org month rs
        (run_agent out checks gateway task_ids r.ctx month r.user_id r.message_id r.now db).1 own
        (subst
          (λ o.
            IsExact o month
              (run_agent out checks gateway task_ids r.ctx month r.user_id r.message_id r.now db).1)
          same
          (run_agent-IsExact r.ctx month r.user_id r.message_id r.now db
            (subst (λ o. IsExact o month db) (sym same) x)))

  status-exact :
      (org month : String) (now : ℕ) (db : RuntimeDb)
      → IsExact org month db
      → (status_now org month now db).used ≡ tokens_used org month db.usage_records
  status-exact org month now db x =
      elim (Option-cases (cached_status (cache_key org month) now db.quota_cache)) [
        | inl old ↦ rw old refl
        | inr (c, live) ↦ rw live (
            x c
              (such-eq-some (λ e. ltb now e.drops_at) (find (cache_key org month) db.quota_cache) c
                live).0)
      ]

  nothing_found {ℓ} :
      {A : Type ℓ} {B : Type 0} (k : String) (t : Table B) (b : B) → t ≡ [] → find k t ≡ some b → A
  unfolding find
  nothing_found k [] b e h = cc
  nothing_found k (r ∷ t) b e h = cc

  -- With nothing cached before, after any runs of an organization one after the other, `getStatus`
  -- returns a status whose used tokens are the sum of the records, cached or not.
  pub run_all-get_status :
      (org month : String) (rs : List Attempt) (now : ℕ) (db : RuntimeDb)
      → db.quota_cache ≡ []
      → All (λ r. r.ctx.organization_id ≡ org) rs
      → (s : QuotaStatus) × ((get_status org month now (run_all month rs db)).0 ≡ ok s)
        × (s.used ≡ tokens_used org month (run_all month rs db).usage_records)
  run_all-get_status org month rs now db empty own = (
    status_now org month now (run_all month rs db),
    ap (λ r. r.0) (get_status_lem org month now (run_all month rs db)),
    status-exact org month now (run_all month rs db) (
        run_all-IsExact org month rs db own
          (λ c h. nothing_found (cache_key org month) db.quota_cache c empty h)),
  )
