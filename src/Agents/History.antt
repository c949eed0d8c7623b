-- ===== src/Agents/History.antt =====
-- Histories of calls of the service.
use ai_business_operating_sy.Base.{Bool, List, Option, String, [], ℕ, ◌∷◌}
use ai_business_operating_sy.Agents.State.{Settings, Snapshot, AgentsDb}
use ai_business_operating_sy.Agents.Service.{
  create_agent, update, create_version, deploy_version, undeploy, rollback, pause, resume, archive,
  restore, hard_delete,
}
use ai_business_operating_sy.Agents.Duplicate.{duplicate, clone_from_template}
use ai_business_operating_sy.Agents.Copies.{duplicate-Inv, clone_from_template-Inv}
use ai_business_operating_sy.Agents.Invariant.{
  Inv, create_agent-Inv, update-Inv, create_version-Inv, deploy_version-Inv, undeploy-Inv,
  rollback-Inv, pause-Inv, resume-Inv, archive-Inv, restore-Inv, hard_delete-Inv,
}

-- A call of a method with its arguments; every method starts with the organization and the agent.
pub data Call : Type 0 where
  creates : String → String → Snapshot → String → String → Call
  updates : Snapshot → String → Bool → Option String → String → Call
  versions_it : String → Option String → String → Call
  deploys : String → Call
  rolls_back : String → String → String → String → Call
  undeploys pauses resumes restores deletes : Call
  archives : ℕ → Call
  duplicates : String → (slug id version_id : String) → (tool_ids knowledge_ids : ℕ → String) → Call
  clones : String → Option Settings → (slug version_id : String) → Call

pub step : String → String → Call → AgentsDb → AgentsDb
step org id (creates user name dto slug v) db = (create_agent org user name dto slug id v db).1
step org id (updates dto user commit notes v) db = (update org id dto user commit notes v db).1
step org id (versions_it user notes v) db = (create_version org id user notes v db).1
step org id (deploys v) db = (deploy_version org id v db).1
step org id (rolls_back v user notes new) db = (rollback org id v user notes new db).1
step org id undeploys db = (undeploy org id db).1
step org id pauses db = (pause org id db).1
step org id resumes db = (resume org id db).1
step org id restores db = (restore org id db).1
step org id deletes db = (hard_delete org id db).1
step org id (archives now) db = (archive org id now db).1
step org id (duplicates user slug new v tools kbs) db =
    (duplicate org user id slug new v tools kbs db).1
step org id (clones user t slug v) db = (clone_from_template org user t slug id v db).1

-- The calls of a history may concern any organizations and agents, and a call that throws leaves
-- what it had written.
unfoldable pub run : List (String × String × Call) → AgentsDb → AgentsDb
unfolding step
run [] db = db
run ((org, id, c) ∷ cs) db = run cs (step org id c db)

step-Inv : (org id : String) (c : Call) (db : AgentsDb) → Inv db → Inv (step org id c db)
unfolding step
step-Inv org id (creates user name dto slug v) db = create_agent-Inv org user name dto slug id v db
step-Inv org id (updates dto user commit notes v) db = update-Inv org id dto user commit notes v db
step-Inv org id (versions_it user notes v) db = create_version-Inv org id user notes v db
step-Inv org id (deploys v) db = deploy_version-Inv org id v db
step-Inv org id (rolls_back v user notes new) db = rollback-Inv org id v user notes new db
step-Inv org id undeploys db = undeploy-Inv org id db
step-Inv org id pauses db = pause-Inv org id db
step-Inv org id resumes db = resume-Inv org id db
step-Inv org id restores db = restore-Inv org id db
step-Inv org id deletes db = hard_delete-Inv org id db
step-Inv org id (archives now) db = archive-Inv org id now db
step-Inv org id (duplicates user slug new v tools kbs) db =
    duplicate-Inv org user id slug new v tools kbs db
step-Inv org id (clones user t slug v) db = clone_from_template-Inv org user t slug id v db

-- Whatever calls are made, whether they succeed or throw, an active agent has a pinned version, a
-- pinned version belongs to its own agent, and an agent is archived exactly when it is marked as
-- deleted, with nothing pinned.
pub run-Inv : (cs : List (String × String × Call)) (db : AgentsDb) → Inv db → Inv (run cs db)
unfolding run
run-Inv [] db inv = inv
run-Inv ((org, id, c) ∷ cs) db inv = run-Inv cs (step org id c db) (step-Inv org id c db inv)
