-- ===== src/Runtime/Cases.antt =====
-- The ways of a run of agent-runtime.service.ts, and what each of them leaves.
use ai_business_operating_sy.Base.{
  Bool, Bool-cases, Exception, List, M, Result, String, Table, [], arith, bind_result, eq_refl, err,
  false, find, find-remove, inl, inr, ltb, not, ok, refl, remove, return, some, true, ℕ, ◌++◌, ◌+◌,
  ◌>>◌, ◌∷◌, ◌≡◌,
}
use ai_business_operating_sy.Agents.State.{Agent}
use ai_business_operating_sy.Runtime.State.{Message, UsageRecord, RuntimeDb, log}
use ai_business_operating_sy.Runtime.Registry.{Outside}
use ai_business_operating_sy.Runtime.Executor.{Checks, when}
use ai_business_operating_sy.Runtime.Quota.{cache_key, tokens_used, record_usage}
use ai_business_operating_sy.Runtime.Memory.{push_short_term}
use ai_business_operating_sy.Runtime.Prompt.{build_specs_for_agent}
use ai_business_operating_sy.Runtime.Loop.{AgentRunContext, Gateway, LoopState, AgentRunResult}
use ai_business_operating_sy.Runtime.Run.{
  add_message, assistant_message, user_message, audit_run, result_of, admit, persist, run_admitted,
  run_agent, initial, build_tool_ctx,
}
use ai_business_operating_sy.Runtime.Frame.{Frame, tool_loop-Frame}
use ai_business_operating_sy.Runtime.Admission.{IsExact, Asked, IsAdmissible, Admits, admit-Admits}

own_record :
    (org month : String) (r : UsageRecord) (rs : List UsageRecord)
    → r.organization_id ≡ org
    → r.month_bucket ≡ month
    → tokens_used org month (r ∷ rs) ≡ r.total_tokens + tokens_used org month rs
unfolding tokens_used
own_record org month r rs o m = rw (o, m, eq_refl org, eq_refl month) refl

no_tokens : (n k : ℕ) → ltb 0 n ≡ false → k ≡ n + k
no_tokens n k h = ground arith

no_entry {ℓ} :
    {A : Type ℓ} {B : Type 0} (k : String) (t : Table B) (b : B) → find k (remove k t) ≡ some b → A
no_entry k t b h = ground (arith, find-remove k k t, eq_refl k)

module _ (out : Outside) (checks : Checks) (gateway : Gateway) (task_ids : ℕ → String) where
  -- What is stored before the loop
  abbrev pub started : Bool → Message → RuntimeDb → RuntimeDb
  started true m db = db
  started false m db = record db { messages = db.messages ++ m ∷ [] }

  -- What comes after the loop
  abbrev pub finish :
      AgentRunContext → (month message_id : String) → LoopState → M RuntimeDb AgentRunResult
  finish ctx month message_id s = do
    when (not ctx.dry_run) (persist out checks gateway task_ids ctx month message_id s)
    log (audit_run out checks gateway task_ids ctx s)
    return (result_of out checks gateway task_ids ctx message_id s)

  abbrev pub begun : AgentRunContext → (user_id : String) → RuntimeDb → RuntimeDb
  begun ctx user_id db =
      started ctx.dry_run (user_message out checks gateway task_ids ctx user_id) db

  started-eq :
      (dry : Bool) (m : Message) (db : RuntimeDb)
      → when (not dry) (add_message out checks gateway task_ids m) db ≡ (ok tt, started dry m db)
  started-eq true m db = refl
  started-eq false m db = refl

  pub run_admitted_cases {ℓ} :
      (R : Result AgentRunResult × RuntimeDb → Type ℓ) (ctx : AgentRunContext)
      (month user_id message_id : String) (a : Agent) (db : RuntimeDb)
      → ((e : Exception) (d : RuntimeDb) → Frame 10 (begun ctx user_id db) d → R (err e, d))
      → ((s : LoopState) (d : RuntimeDb)
          → Frame 10 (begun ctx user_id db) d
          → R (finish ctx month message_id s d))
      → R (run_admitted out checks gateway task_ids ctx month user_id message_id a db)
  unfolding run_admitted
  run_admitted_cases R ctx month user_id message_id a db bad good =
      rw (started-eq ctx.dry_run (user_message out checks gateway task_ids ctx user_id) db) (
        looped _ (
          tool_loop-Frame out checks gateway task_ids 10
            (build_tool_ctx out checks gateway task_ids ctx) a
            (build_specs_for_agent ctx.agent_id db) (initial out checks gateway task_ids ctx a db)
            (begun ctx user_id db)))
    where
      looped :
          (r : Result LoopState × RuntimeDb)
          → Frame 10 (begun ctx user_id db) r.1
          → R (bind_result r (λ s. finish ctx month message_id s))
      looped (ok s, d) f = good s d f
      looped (err e, d) f = bad e d f

  -- The two ways of a run: it is refused, or an agent is admitted and run.
  pub run_agent_cases {ℓ} :
      (R : Result AgentRunResult × RuntimeDb → Type ℓ) (ctx : AgentRunContext)
      (month user_id message_id : String) (now : ℕ) (db : RuntimeDb)
      → ((e : Exception) (d : RuntimeDb) → Asked ctx.organization_id month db d → R (err e, d))
      → ((a : Agent) (d : RuntimeDb)
          → Asked ctx.organization_id month db d
          → IsAdmissible out checks gateway task_ids ctx month now db a
          → R (run_admitted out checks gateway task_ids ctx month user_id message_id a d))
      → R (run_agent out checks gateway task_ids ctx month user_id message_id now db)
  unfolding run_agent
  run_agent_cases R ctx month user_id message_id now db bad good =
      go (admit out checks gateway task_ids ctx month now db)
        (admit-Admits out checks gateway task_ids ctx month now db)
    where
      go :
          (r : Result Agent × RuntimeDb)
          → Admits out checks gateway task_ids ctx month now db r
          → R (
              bind_result r
                (λ a. run_admitted out checks gateway task_ids ctx month user_id message_id a))
      go (err e, d) asked = bad e d asked
      go (ok a, d) (asked, admissible) = good a d asked admissible

  -- What a run that is no dry run stores after the loop
  pub record Stored (ctx : AgentRunContext) (month message_id : String) (s : LoopState)
      (d e : RuntimeDb) : Type 0 where
    pub messages :
        e.messages
        ≡ d.messages ++ assistant_message out checks gateway task_ids ctx message_id s ∷ []
    pub effects : e.effects ≡ d.effects
    pub used :
        tokens_used ctx.organization_id month e.usage_records
        ≡ s.total_input + s.total_output + tokens_used ctx.organization_id month d.usage_records
    pub exact : IsExact ctx.organization_id month d → IsExact ctx.organization_id month e

  persist-Stored :
      (ctx : AgentRunContext) (month message_id : String) (s : LoopState) (d : RuntimeDb)
      → (e : RuntimeDb) × (persist out checks gateway task_ids ctx month message_id s d
          ≡ (ok tt, e))
        × Stored ctx month message_id s d e
  unfolding persist record_usage push_short_term
  persist-Stored ctx month message_id s d =
      elim (Bool-cases (ltb 0 (s.total_input + s.total_output))) [
        | inl counted ↦ rw counted (
          _,
          refl,
          record {
            messages = refl;
            effects = refl;
            used = own_record ctx.organization_id month _ d.usage_records refl refl;
            exact = λ x c h. no_entry (cache_key ctx.organization_id month) d.quota_cache c h;
          },
        )
        | inr nothing ↦ rw nothing (
          _,
          refl,
          record {
            messages = refl;
            effects = refl;
            used =
                no_tokens (s.total_input + s.total_output)
                  (tokens_used ctx.organization_id month d.usage_records) nothing;
            exact = λ x. x;
          },
        )
      ]

  pub finish_cases {ℓ} :
      (R : Result AgentRunResult × RuntimeDb → Type ℓ) (ctx : AgentRunContext)
      (month message_id : String) (s : LoopState) (d : RuntimeDb)
      → (ctx.dry_run ≡ true
          → R (
            ok (result_of out checks gateway task_ids ctx message_id s),
            record d { audits = audit_run out checks gateway task_ids ctx s ∷ d.audits },
          ))
      → ((e : RuntimeDb)
          → ctx.dry_run ≡ false
          → Stored ctx month message_id s d e
          → R (
            ok (result_of out checks gateway task_ids ctx message_id s),
            record e { audits = audit_run out checks gateway task_ids ctx s ∷ e.audits },
          ))
      → R (finish ctx month message_id s d)
  finish_cases R ctx month message_id s d dry wet = go ctx.dry_run refl
    where
      done : AgentRunResult
      done = result_of out checks gateway task_ids ctx message_id s

      logged : RuntimeDb → Result AgentRunResult × RuntimeDb
      logged e =
          (ok done, record e { audits = audit_run out checks gateway task_ids ctx s ∷ e.audits })

      go :
          (b : Bool)
          → ctx.dry_run ≡ b
          → R (
              bind_result
                (when (not b) (persist out checks gateway task_ids ctx month message_id s) d)
                (λ u e. logged e))
      go true h = dry h
      go false h =
          let (e, eq, stored) = persist-Stored ctx month message_id s d in rw eq (wet e h stored)

  pub started-effects :
      (dry : Bool) (m : Message) (db : RuntimeDb) → (started dry m db).effects ≡ db.effects
  started-effects true m db = refl
  started-effects false m db = refl

  pub started-messages :
      (dry : Bool) (m : Message) (db : RuntimeDb)
      → dry ≡ false
      → (started dry m db).messages ≡ db.messages ++ m ∷ []
  started-messages true m db h = cc
  started-messages false m db h = refl

  pub started-usage :
      (dry : Bool) (m : Message) (db : RuntimeDb)
      → (started dry m db).usage_records ≡ db.usage_records
  started-usage true m db = refl
  started-usage false m db = refl

  pub started-cache :
      (dry : Bool) (m : Message) (db : RuntimeDb) → (started dry m db).quota_cache ≡ db.quota_cache
  started-cache true m db = refl
  started-cache false m db = refl
