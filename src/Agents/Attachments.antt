-- ===== src/Agents/Attachments.antt =====
-- The tools and knowledge bases of an agent: `attachTool`, `detachTool`, `attachKnowledge` and
-- `detachKnowledge` of agents.service.ts, with `listVersions` and `getVersion`. The tables of tools and
-- knowledge bases are only read. The pair of agent and target is a unique key.
use ai_business_operating_sy.Base.{
  Bool, Bool-cases, List, M, Option, Option-cases, String, Table, [], any, arith, create, ensure,
  eq_refl, equals, false, find, get, if◌then◌else◌, inl, inr, internal, is_some, keep, map,
  modify_where, none, not, not_found, or_else, or_throw, refl, remove_where, return, such, true,
  write, ℕ, ◌&&◌, ◌==◌, ◌>>=◌, ◌>>◌, ◌||◌, ◌∙◌, ◌∷◌, ◌≡◌,
}
use ai_business_operating_sy.Agents.State.{
  AgentVersion, Attachment, AgentsDb, find_owned, find_version,
}
use ai_business_operating_sy.Agents.Service.{owned_or_throw}

pub record Tool : Type 0 where
  pub organization_id : Option String
  pub is_active : Bool

pub record KnowledgeBase : Type 0 where
  pub organization_id : String
  pub deleted_at : Option ℕ

-- A tool of the organization, or of none, that is active
abbrev pub may_attach : String → Tool → Bool
may_attach org t = (not (is_some t.organization_id) || equals t.organization_id org) && t.is_active

abbrev pub may_know : String → KnowledgeBase → Bool
may_know org k = k.organization_id == org && not (is_some k.deleted_at)

abbrev pub is_attachment : String → String → Attachment → Bool
is_attachment agent target r = r.agent_id == agent && r.target_id == target

abbrev pub attached : String → String → Table Attachment → Bool
attached agent target t = any (λ r. is_attachment agent target r.1) t

-- `update`: what the request leaves out is not written.
abbrev pub reconfigure : Option String → Option String → Attachment → Attachment
reconfigure configuration permissions r = record r {
  configuration = or_else configuration r.configuration;
  permissions = or_else permissions r.permissions;
}

-- `upsert` by the pair
unfoldable pub upsert_attachment : (id : String) → Attachment → Table Attachment → Table Attachment
upsert_attachment id r t =
    if attached r.agent_id r.target_id t
    then modify_where (is_attachment r.agent_id r.target_id)
        (reconfigure r.configuration r.permissions) t
    else create id r t

-- `attachTool`
unfoldable pub attach_tool :
    Table Tool
    → (org agent tool id : String) → (configuration permissions : Option String)
    → M AgentsDb (Unit {0})
attach_tool tools org agent tool id configuration permissions = do
  _a ← owned_or_throw org agent
  _t ← or_throw (such (may_attach org) (find tool tools)) (not_found "Tool not found")
  write (λ d. record d {
    agent_tools =
        upsert_attachment id
          (record {
            agent_id = agent;
            target_id = tool;
            configuration = configuration;
            permissions = permissions;
          })
          d.agent_tools;
  })

-- `detachTool`
unfoldable pub detach_tool : (org agent tool : String) → M AgentsDb (Unit {0})
detach_tool org agent tool = do
  _a ← owned_or_throw org agent
  db ← get
  ensure (attached agent tool db.agent_tools) (internal "Record to delete does not exist")
  write (λ d. record d { agent_tools = remove_where (is_attachment agent tool) d.agent_tools })

-- `attachKnowledge`, whose update writes nothing
unfoldable pub attach_knowledge :
    Table KnowledgeBase → (org agent base id : String) → M AgentsDb (Unit {0})
attach_knowledge bases org agent base id = do
  _a ← owned_or_throw org agent
  _k ← or_throw (such (may_know org) (find base bases)) (not_found "Knowledge base not found")
  write (λ d. record d {
    agent_knowledge =
        upsert_attachment id
          (record { agent_id = agent; target_id = base; configuration = none; permissions = none })
          d.agent_knowledge;
  })

-- `detachKnowledge`
unfoldable pub detach_knowledge : (org agent base : String) → M AgentsDb (Unit {0})
detach_knowledge org agent base = do
  _a ← owned_or_throw org agent
  db ← get
  ensure (attached agent base db.agent_knowledge) (internal "Record to delete does not exist")
  write (λ d. record d {
    agent_knowledge = remove_where (is_attachment agent base) d.agent_knowledge;
  })

-- `listVersions`, in the order of the table
unfoldable pub list_versions : (org agent : String) → M AgentsDb (List AgentVersion)
list_versions org agent = do
  _a ← owned_or_throw org agent
  db ← get
  return (keep (λ v. v.agent_id == agent) (map (λ r. r.1) db.versions))

-- `getVersion`
unfoldable pub get_version : (org agent version : String) → M AgentsDb AgentVersion
get_version org agent version = do
  _a ← owned_or_throw org agent
  db ← get
  or_throw (find_version agent version db) (not_found "Version not found")

attached-modify_where :
    (agent target : String) (c p : Option String) (t : Table Attachment)
    → attached agent target (modify_where (is_attachment agent target) (reconfigure c p) t)
      ≡ attached agent target t
unfolding modify_where
attached-modify_where agent target c p [] = refl
attached-modify_where agent target c p ((id, r) ∷ t) =
    elim (Bool-cases (is_attachment agent target r)) [
      | inl same ↦ rw (same, same) refl
      | inr other ↦ rw (other, other) (attached-modify_where agent target c p t)
    ]

attached-upsert :
    (id : String) (r : Attachment) (t : Table Attachment)
    → attached r.agent_id r.target_id (upsert_attachment id r t) ≡ true
unfolding upsert_attachment create
attached-upsert id r t = elim (Bool-cases (attached r.agent_id r.target_id t)) [
  | inl there ↦
      rw there
        (attached-modify_where r.agent_id r.target_id r.configuration r.permissions t ∙ there)
  | inr new ↦ rw new (rw (eq_refl r.agent_id, eq_refl r.target_id) refl)
]

attached-remove_where :
    (agent target : String) (t : Table Attachment)
    → attached agent target (remove_where (is_attachment agent target) t) ≡ false
unfolding remove_where
attached-remove_where agent target [] = refl
attached-remove_where agent target ((id, r) ∷ t) =
    elim (Bool-cases (is_attachment agent target r)) [
      | inl same ↦ rw same (attached-remove_where agent target t)
      | inr other ↦ rw (other, other) (attached-remove_where agent target t)
    ]

-- A tool is attached to an agent of the organization when it is an active tool of the organization or
-- of all of them, and then is among the agent's tools; any other call writes nothing. Detaching a tool
-- that is attached to an agent of the organization takes it off.
pub attach_tool_lem :
    (tools : Table Tool) (org agent tool id : String) (c p : Option String) (db : AgentsDb)
    → (is_some (find_owned org agent db) && is_some (such (may_attach org) (find tool tools)) ≡ true
        → attached agent tool (attach_tool tools org agent tool id c p db).1.agent_tools ≡ true)
      × (is_some (find_owned org agent db) && is_some (such (may_attach org) (find tool tools))
            ≡ false
          → (attach_tool tools org agent tool id c p db).1 ≡ db)
      × (is_some (find_owned org agent db) && attached agent tool db.agent_tools ≡ true
          → attached agent tool (detach_tool org agent tool db).1.agent_tools ≡ false)
unfolding attach_tool detach_tool
attach_tool_lem tools org agent tool id c p db =
    let r : Attachment = record {
      agent_id = agent;
      target_id = tool;
      configuration = c;
      permissions = p;
    } in
    let there = attached-upsert id r db.agent_tools in
    let gone = attached-remove_where agent tool db.agent_tools in
    elim (Option-cases (find_owned org agent db)) [
      | inl stranger ↦
          (λ h. absurd (ground arith), λ h. rw stranger refl, λ h. absurd (ground arith))
      | inr (a, own) ↦ elim (Option-cases (such (may_attach org) (find tool tools))) [
        | inl hidden ↦ (λ h. absurd (ground arith), λ h. rw (own, hidden) refl, λ h. ground arith)
        | inr (t, seen) ↦ (λ h. rw (own, seen) there, λ h. absurd (ground arith), λ h. ground arith)
      ]
    ]
