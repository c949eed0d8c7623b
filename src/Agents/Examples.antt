-- ===== src/Agents/Examples.antt =====
-- An active agent of the organization "acme" with two versions, the second without instructions.
use ai_business_operating_sy.Base.{such, ◌&&◌, false, Table}
use ai_business_operating_sy.Agents.Attachments.{
  Tool, may_attach, attached, attach_tool, detach_tool, attach_tool_lem,
}
use ai_business_operating_sy.Base.{
  List, String, [], arith, bad_request, eq_iff, err, find, is_some, modify, none, not_found, refl,
  some, true, ℕ, ◌∷◌, ◌≡◌,
}
use ai_business_operating_sy.Agents.State.{
  active, Settings, Snapshot, snapshot_config, Agent, AgentVersion, AgentsDb, find_owned,
  find_version,
}
use ai_business_operating_sy.Agents.Service.{deploy_version, rollback, archive}
use ai_business_operating_sy.Base.{subst, Bool-cases, inl, inr, ◌==◌}
use ai_business_operating_sy.Agents.Invariant.{owner_of, IsSound, Inv}
use ai_business_operating_sy.Agents.History.{
  Call, creates, deploys, pauses, archives, restores, run, run-Inv,
}
use ai_business_operating_sy.Agents.Versions.{rollback_leaves_version}

abbrev settings : Settings
settings = record {
  name = "Sales";
  description = none;
  role = "assistant";
  objective = none;
  system_instructions = "Sell.";
  personality = none;
  tone = "professional";
  language = "en";
  model_provider = "openai";
  model_name = "gpt-4o-mini";
  temperature = record { mantissa = 7; scale = 1 };
  max_tokens = 4096;
  guardrails = none;
  max_tool_calls = 10;
  timeout_seconds = 120;
}

abbrev blank : Snapshot
blank = record {
  name = none;
  description = none;
  role = none;
  objective = none;
  system_instructions = none;
  personality = none;
  tone = none;
  language = none;
  model_provider = none;
  model_name = none;
  temperature = none;
  max_tokens = none;
  guardrails = none;
  max_tool_calls = none;
  timeout_seconds = none;
}

abbrev agent : Agent
agent = record {
  organization_id = "acme";
  created_by = "ann";
  slug = "sales";
  settings = settings;
  status = active;
  deployed_version_id = some "v1";
  deleted_at = none;
}

abbrev good_snapshot : Snapshot
good_snapshot = record blank { system_instructions = some "Sell." }

abbrev version_row : ℕ → Snapshot → AgentVersion
version_row n c = record {
  agent_id = "a1";
  version = n;
  config = c;
  change_notes = "";
  created_by = "ann";
}

abbrev empty_db : AgentsDb
empty_db = record {
  agents = [];
  versions = [];
  agent_tools = [];
  agent_knowledge = [];
  workflow_nodes = [];
  conversations = [];
  usage_records = [];
  tool_executions = [];
  tasks = [];
}

abbrev db : AgentsDb
db = record empty_db {
  agents = ("a1", agent) ∷ [];
  versions = ("v2", version_row 2 blank) ∷ ("v1", version_row 1 good_snapshot) ∷ [];
}

empty-Inv : Inv empty_db
unfolding find
empty-Inv id a h = absurd (ground arith)

pinned_v1 : owner_of db.versions "v1" ≡ some "a1"
unfolding find
pinned_v1 = refl

agent-IsSound : IsSound db.versions "a1" agent
agent-IsSound = record {
  live = λ _. refl;
  own = λ v e. subst (λ w. owner_of db.versions w ≡ some "a1") (ground arith) pinned_v1;
  gone = refl;
  unpinned = λ e. cc;
}

db-Inv : Inv db
unfolding find
db-Inv id a h = elim (Bool-cases ("a1" == id)) [
  | inl e ↦
      subst (λ i. IsSound db.versions i a) ((eq_iff "a1" id).0 e)
        (subst (IsSound db.versions "a1") (ground arith) agent-IsSound)
  | inr e ↦ absurd (ground arith)
]

owned : find_owned "acme" "a1" db ≡ some agent
unfolding find_owned find
owned = refl

bad_target : find_version "a1" "v2" db ≡ some (version_row 2 blank)
unfolding find_version find
bad_target = refl

fresh : find "v3" db.versions ≡ none
unfolding find
fresh = refl

abbrev history : List (String × String × Call)
history =
    ("acme", "a1", creates "ann" "Sales" blank "sales" "v1")
    ∷ ("acme", "a1", deploys "v1")
    ∷ ("other", "a1", pauses)
    ∷ ("acme", "a1", archives 7)
    ∷ ("acme", "a1", restores)
    ∷ []

run-Inv_example : Inv (run history empty_db)
run-Inv_example = run-Inv history empty_db empty-Inv

abbrev snapshot_db : AgentsDb
snapshot_db = record db { versions = ("v4", version_row 3 (snapshot_config settings)) ∷ [] }

rollback_leaves_version_example :
    let (r, d) = rollback "acme" "a1" "v2" "ann" "Rollback to v2" "v3" db in
    (r ≡ err (bad_request "This version has no system instructions — cannot deploy"))
    × (is_some (find "v3" d.versions) ≡ true)
    × (d.agents ≡ db.agents)
rollback_leaves_version_example =
    rollback_leaves_version "acme" "a1" "v2" "ann" "Rollback to v2" "v3" db agent
      (version_row 2 blank) owned bad_target refl fresh

archived_refused :
    (deploy_version "acme" "a1" "v1" (archive "acme" "a1" 7 db).1).0
    ≡ err (not_found "Agent not found")
unfolding deploy_version archive find_owned find modify
archived_refused = refl

abbrev tools : Table Tool
tools = ("mail", record { organization_id = none; is_active = true }) ∷ []

attach_tool_lem_example :
    (is_some (find_owned "acme" "a1" db) && is_some (such (may_attach "acme") (find "mail" tools))
        ≡ true
      → attached "a1" "mail" (attach_tool tools "acme" "a1" "mail" "x" none none db).1.agent_tools
        ≡ true)
    × (is_some (find_owned "acme" "a1" db) && is_some (such (may_attach "acme") (find "mail" tools))
          ≡ false
        → (attach_tool tools "acme" "a1" "mail" "x" none none db).1 ≡ db)
    × (is_some (find_owned "acme" "a1" db) && attached "a1" "mail" db.agent_tools ≡ true
        → attached "a1" "mail" (detach_tool "acme" "a1" "mail" db).1.agent_tools ≡ false)
attach_tool_lem_example = attach_tool_lem tools "acme" "a1" "mail" "x" none none db
