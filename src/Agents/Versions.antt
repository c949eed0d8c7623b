-- ===== src/Agents/Versions.antt =====
-- Version numbers, snapshots and rollback.
use ai_business_operating_sy.Base.{
  All, Option, Option-cases, String, Table, [], arith, bad_request, create, eq_iff, eq_refl, err,
  false, find, find-create, find-modify, if◌then◌else◌, inl, inr, is_some, modify, none, ok,
  or_default, refl, some, true, ℕ, ◌+◌, ◌<◌, ◌==◌, ◌∷◌, ◌≡◌, ◌≢◌, ◌≤◌,
}
use ai_business_operating_sy.Agents.State.{
  active, paused, Settings, Snapshot, snapshot_config, merge, Agent, AgentVersion, AgentsDb,
  find_owned, find_version, last_version, version_of, later,
}
use ai_business_operating_sy.Agents.Service.{
  create_version, deploy_version, rollback, pause, resume, is_truthy,
}
use ai_business_operating_sy.Agents.Invariant.{Inv, owned-eq-some}

-- Every version number of the agent is below n.
abbrev pub Below : ℕ → String → Table AgentVersion → Type 0
Below n agent t = All (λ r. r.1.agent_id ≡ agent → r.1.version < n) t

Below-mono :
    (m n : ℕ) (agent : String) (t : Table AgentVersion) → m ≤ n → Below m agent t → Below n agent t
Below-mono m n agent [] h b = tt
Below-mono m n agent (r ∷ t) h b = (λ e. omega (arith, b.0 e), Below-mono m n agent t h b.1)

last_version-Below :
    (agent : String) (t : Table AgentVersion)
    → Below (version_of (last_version agent t) + 1) agent t
unfolding last_version
last_version-Below agent [] = tt
last_version-Below agent ((k, v) ∷ t) =
    let rest = last_version-Below agent t in
    let grown =
      Below-mono (version_of (last_version agent t) + 1)
        (version_of
            (if v.agent_id == agent then later v (last_version agent t) else last_version agent t)
          + 1)
        agent t (ground arith) rest in
    (λ e. ground (arith, eq_iff v.agent_id agent), grown)

-- The description, objective, personality and guardrails that are null in the snapshot are null in
-- the agent as well.
pub record NullsAgree (s t : Settings) : Type 0 where
  pub description : s.description ≡ none → t.description ≡ none
  pub objective : s.objective ≡ none → t.objective ≡ none
  pub personality : s.personality ≡ none → t.personality ≡ none
  pub guardrails : s.guardrails ≡ none → t.guardrails ≡ none

-- A new version of an agent that is there, under a fresh id: its number is above all the agent's
-- version numbers, it holds the agent's settings, and the other versions stay.
pub create_version_lem :
    (org id user version_id : String) (notes : Option String) (db : AgentsDb) (a : Agent)
    → find_owned org id db ≡ some a
    → find version_id db.versions ≡ none
    → let (r, d) = create_version org id user notes version_id db in
      (v : AgentVersion) × (r ≡ ok v)
      × (find version_id d.versions ≡ some v)
      × (v.agent_id ≡ id)
      × (v.config ≡ snapshot_config a.settings)
      × Below v.version id db.versions
      × ((w : String) → w ≢ version_id → find w d.versions ≡ find w db.versions)
      × (d.agents ≡ db.agents)
unfolding create_version
create_version_lem org id user version_id notes db a h fresh =
    let v : AgentVersion = record {
      agent_id = id;
      version = version_of (last_version id db.versions) + 1;
      config = snapshot_config a.settings;
      change_notes = or_default notes "Manual version";
      created_by = user;
    } in
    let g = (owned-eq-some org id db a h).0 in
    rw (h, create_version)
      (rw g (
        rw fresh (
          v,
          refl,
          ground (arith, find-create version_id version_id v db.versions, eq_refl version_id),
          refl,
          refl,
          last_version-Below id db.versions,
          λ w ne. ground (arith, find-create w version_id v db.versions, eq_iff version_id w),
          refl,
        )))

-- The row that rollback makes, and the versions after it.
abbrev rolled_version : String → String → String → Snapshot → AgentsDb → AgentVersion
rolled_version id user notes c db = record {
  agent_id = id;
  version = version_of (last_version id db.versions) + 1;
  config = c;
  change_notes = notes;
  created_by = user;
}

abbrev rolled_db : String → String → String → String → Snapshot → Snapshot → AgentsDb → AgentsDb
rolled_db id new_id user notes c₀ c db = record db {
  versions =
      modify new_id (λ v. record v { config = c })
        (create new_id (rolled_version id user notes c₀ db) db.versions);
}

rolled_version-find :
    (id new_id user notes : String) (c₀ c : Snapshot) (db : AgentsDb)
    → find_version id new_id (rolled_db id new_id user notes c₀ c db)
      ≡ some (rolled_version id user notes c db)
unfolding find_version
rolled_version-find id new_id user notes c₀ c db = ground (
  arith,
  find-modify new_id new_id (λ v. record v { config = c })
      (create new_id (rolled_version id user notes c₀ db) db.versions),
  find-create new_id new_id (rolled_version id user notes c₀ db) db.versions,
  eq_refl new_id,
  eq_refl id,
)

-- The row of an agent after a deployment.
abbrev pinned : String → Snapshot → Agent → Agent
pinned version_id c a = record a {
  status = active;
  deployed_version_id = some version_id;
  settings = merge c a.settings;
}

rollback-eq :
    (org id version_id user notes new_id : String) (db : AgentsDb) (a : Agent)
    (target : AgentVersion)
    → find_owned org id db ≡ some a
    → find_version id version_id db ≡ some target
    → find new_id db.versions ≡ none
    → rollback org id version_id user notes new_id db
      ≡ deploy_version org id new_id
          (rolled_db id new_id user notes (snapshot_config a.settings) target.config db)
unfolding rollback
rollback-eq org id version_id user notes new_id db a target h t fresh =
    rw (h, rollback) (rw t (rw (owned-eq-some org id db a h).0 (rw fresh)))

rolled-find_owned :
    (org id new_id user notes : String) (c₀ c : Snapshot) (db : AgentsDb)
    → find_owned org id (rolled_db id new_id user notes c₀ c db) ≡ find_owned org id db
unfolding find_owned
rolled-find_owned org id new_id user notes c₀ c db = refl

-- A rollback to a version without instructions throws, and leaves the version it had made.
pub rollback_leaves_version :
    (org id version_id user notes new_id : String) (db : AgentsDb) (a : Agent)
    (target : AgentVersion)
    → find_owned org id db ≡ some a
    → find_version id version_id db ≡ some target
    → is_truthy target.config.system_instructions ≡ false
    → find new_id db.versions ≡ none
    → let (r, d) = rollback org id version_id user notes new_id db in
      (r ≡ err (bad_request "This version has no system instructions — cannot deploy"))
      × (is_some (find new_id d.versions) ≡ true)
      × (d.agents ≡ db.agents)
unfolding deploy_version
rollback_leaves_version org id version_id user notes new_id db a target h t bad fresh =
    let c₀ = snapshot_config a.settings in
    rw (rollback-eq org id version_id user notes new_id db a target h t fresh) (
      rw (rolled-find_owned org id new_id user notes c₀ target.config db, deploy_version)
        (rw h (
          rw (owned-eq-some org id db a h).1 (
            rw (rolled_version-find id new_id user notes c₀ target.config db)
              (rw bad (refl, kept, refl))))))
  where
    kept :
        is_some (
          find new_id
            (rolled_db id new_id user notes (snapshot_config a.settings) target.config db).versions)
        ≡ true
    kept = ground (
      arith,
      find-modify new_id new_id (λ v. record v { config = target.config })
          (create new_id (rolled_version id user notes (snapshot_config a.settings) db)
            db.versions),
      find-create new_id new_id (rolled_version id user notes (snapshot_config a.settings) db)
          db.versions,
      eq_refl new_id,
    )

abbrev paused_row : Agent → Agent
paused_row a = record a { status = paused }

paused-find_owned :
    (org id : String) (db : AgentsDb) (a : Agent)
    → find_owned org id db ≡ some a
    → find_owned org id (record db { agents = modify id paused_row db.agents })
      ≡ some (paused_row a)
unfolding find_owned
paused-find_owned org id db a h = ground (arith, find-modify id id paused_row db.agents, eq_refl id)

-- Pausing an active agent and resuming it gives back its row.
pub resume-pause :
    (org id : String) (db : AgentsDb) (a : Agent)
    → Inv db
    → find_owned org id db ≡ some a
    → a.status ≡ active
    → let (r, d) = resume org id (pause org id db).1 in (r ≡ ok tt) × (find id d.agents ≡ some a)
unfolding pause resume
resume-pause org id db a inv h act =
    let g = (owned-eq-some org id db a h).0 in
    let d : AgentsDb = record db { agents = modify id paused_row db.agents } in
    let e = paused-find_owned org id db a h in
    elim (Option-cases a.deployed_version_id) [
      | inl n ↦ absurd (ground (arith, (inv id a g).live))
      | inr (v, n) ↦
          rw (h, pause)
            (rw (e, resume)
              (rw n (
                refl,
                ground (
                  arith,
                  find-modify id id (λ b. record b { status = active }) d.agents,
                  find-modify id id paused_row db.agents,
                  eq_refl id,
                ),
              )))
    ]
