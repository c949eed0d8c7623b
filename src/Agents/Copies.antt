-- ===== src/Agents/Copies.antt =====
-- The lifecycle invariant and the copies of agents: `duplicate` and `cloneFromTemplate`.
use ai_business_operating_sy.Base.{
  Bool-cases, Option, Option-cases, String, arith, create, find, find-create, inl, inr, none, some,
  ℕ, ◌++◌, ◌≡◌,
}
use ai_business_operating_sy.Agents.State.{Settings, snapshot_config, Agent, AgentsDb, find_owned}
use ai_business_operating_sy.Agents.Duplicate.{
  attachments_of, cloned, copies, knowledge_copies, duplicate, clone_from_template,
}
use ai_business_operating_sy.Agents.Service.{is_taken}
use ai_business_operating_sy.Agents.Invariant.{Inv, insert_version-Inv, create_agent-Inv}

pub duplicate-Inv :
    (org user agent slug id version_id : String) (tool_ids knowledge_ids : ℕ → String)
    (db : AgentsDb)
    → Inv db
    → Inv (duplicate org user agent slug id version_id tool_ids knowledge_ids db).1
unfolding duplicate
duplicate-Inv org user agent slug id version_id tool_ids knowledge_ids db inv =
    elim (Option-cases (find_owned org agent db)) [
      | inl missing ↦ rw missing inv
      | inr (a, owned) ↦ elim (Bool-cases (is_taken org slug db)) [
        | inl used ↦ rw (owned, used) inv
        | inr new ↦ elim (Option-cases (find id db.agents)) [
          | inr (b, taken) ↦ rw (owned, new, taken) inv
          | inl free ↦ elim (Option-cases (find version_id db.versions)) [
            | inl fresh ↦
                rw (owned, new, free, fresh)
                  (insert_version-Inv (made_db a) version_id _ (made a) fresh)
            | inr (v, used) ↦ rw (owned, new, free, used) (made a)
          ]
        ]
      ]
    ]
  where
    made_db : Agent → AgentsDb
    made_db a = record db {
      agents = create id (cloned org user slug a) db.agents;
      agent_tools = copies tool_ids 0 id (attachments_of agent db.agent_tools) ++ db.agent_tools;
      agent_knowledge =
          knowledge_copies knowledge_ids 0 id (attachments_of agent db.agent_knowledge)
          ++ db.agent_knowledge;
    }

    made : (a : Agent) → Inv (made_db a)
    made a j b h = ground (
      arith,
      find-create j id (cloned org user slug a) db.agents,
      inv j b,
      (λ (g : find j db.agents ≡ some b). (inv j b g).own),
    )

pub clone_from_template-Inv :
    (org user : String) (template : Option Settings) (slug id version_id : String) (db : AgentsDb)
    → Inv db
    → Inv (clone_from_template org user template slug id version_id db).1
unfolding clone_from_template
clone_from_template-Inv org user none slug id version_id db inv = inv
clone_from_template-Inv org user (some t) slug id version_id db inv =
    create_agent-Inv org user t.name (snapshot_config t) slug id version_id db inv
