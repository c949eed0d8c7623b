-- ===== src/Agents/Duplicate.antt =====
-- agents.service.ts: the search of `generateUniqueSlug`, `findOne`, `duplicate` and
-- `cloneFromTemplate`. The slug's base, which is made of the name, its random end and the row of a
-- template are arguments, and so are the ids of the copied attachments, by their number.
use ai_business_operating_sy.Base.{
  Bool-cases, M, Option, String, Table, [], concat, eqb, false, get, if◌then◌else◌, inl, inr, keep,
  ltb, none, not_found, or_throw, refl, return, suc, write, zero, ℕ, ◌%◌, ◌++◌, ◌+◌, ◌/◌, ◌==◌,
  ◌>>=◌, ◌>>◌, ◌∷◌, ◌≡◌, ◌⊎◌,
}
use ai_business_operating_sy.Agents.State.{
  draft, Settings, snapshot_config, Agent, Attachment, AgentsDb,
}
use ai_business_operating_sy.Agents.Service.{
  is_taken, insert_agent, insert_version, create_agent, owned_or_throw,
}

abbrev pub digit : ℕ → String
digit n =
    if eqb n 0
    then "0"
    else if eqb n 1
    then "1"
    else if eqb n 2
    then "2"
    else if eqb n 3
    then "3"
    else if eqb n 4
    then "4"
    else if eqb n 5
    then "5"
    else if eqb n 6
    then "6"
    else if eqb n 7
    then "7"
    else if eqb n 8
    then "8"
    else "9"

-- A number below a thousand in a template text
abbrev pub decimal : ℕ → String
decimal n =
    let tens = concat (digit (n / 10 % 10)) (digit (n % 10)) in
    if ltb n 10 then digit n else if ltb n 100 then tens else concat (digit (n / 100)) tens

-- The `while` of `generateUniqueSlug`, whose `findUnique` is `is_taken`, with the tries that are left before `i` exceeds 100
unfoldable pub slug_loop :
    (tries : ℕ) → (org base end : String) → (i : ℕ) → (slug : String) → AgentsDb → String
slug_loop zero org base end i slug db = concat base (concat "-" end)
slug_loop (suc n) org base end i slug db =
    let rest = slug_loop n org base end (i + 1) (concat base (concat "-" (decimal i))) db in
    if is_taken org slug db then rest else slug

-- `generateUniqueSlug`
abbrev pub generate_unique_slug : (org base end : String) → AgentsDb → String
generate_unique_slug org base end db = slug_loop 100 org base end 1 base db

-- The slug is free in the organization, or it is the one with the random end.
pub generate_unique_slug-is_taken :
    (org base end : String) (db : AgentsDb)
    → (is_taken org (generate_unique_slug org base end db) db ≡ false)
      ⊎ (generate_unique_slug org base end db ≡ concat base (concat "-" end))
unfolding slug_loop
generate_unique_slug-is_taken org base end db = go 100 1 base
  where
    go :
        (n i : ℕ) (slug : String)
        → (is_taken org (slug_loop n org base end i slug db) db ≡ false)
          ⊎ (slug_loop n org base end i slug db ≡ concat base (concat "-" end))
    go zero i slug = inr refl
    go (suc n) i slug = elim (Bool-cases (is_taken org slug db)) [
      | inl taken ↦ rw taken (go n (i + 1) (concat base (concat "-" (decimal i))))
      | inr free ↦ rw free (inl free)
    ]

-- `findOne`, which reads the agent with its attachments
abbrev pub attachments_of : (agent : String) → Table Attachment → Table Attachment
attachments_of agent t = keep (λ r. r.1.agent_id == agent) t

-- The rows of `createMany`, for the clone
unfoldable pub copies :
    (ids : ℕ → String) → (number : ℕ) → (clone : String) → Table Attachment → Table Attachment
copies ids n clone [] = []
copies ids n clone ((_, r) ∷ t) =
    (ids n, record r { agent_id = clone }) ∷ copies ids (suc n) clone t

-- The knowledge bases are copied without the columns that their table does not have.
unfoldable pub knowledge_copies :
    (ids : ℕ → String) → (number : ℕ) → (clone : String) → Table Attachment → Table Attachment
knowledge_copies ids n clone [] = []
knowledge_copies ids n clone ((_, r) ∷ t) =
    (
      ids n,
      record {
        agent_id = clone;
        target_id = r.target_id;
        configuration = none;
        permissions = none;
      },
    )
    ∷ knowledge_copies ids (suc n) clone t

abbrev pub cloned : (org user slug : String) → Agent → Agent
cloned org user slug a = record {
  organization_id = org;
  created_by = user;
  slug = slug;
  settings = record a.settings { name = concat a.settings.name " (Copy)" };
  status = draft;
  deployed_version_id = none;
  deleted_at = none;
}

-- `duplicate`; `slug` is what `generateUniqueSlug` gives.
unfoldable pub duplicate :
    (org user agent : String)
    → (slug id version_id : String) → (tool_ids knowledge_ids : ℕ → String) → M AgentsDb Agent
duplicate org user agent slug id version_id tool_ids knowledge_ids = do
  a ← owned_or_throw org agent
  db ← get
  insert_agent id (cloned org user slug a)
  write (λ d. record d {
    agent_tools = copies tool_ids 0 id (attachments_of agent db.agent_tools) ++ d.agent_tools;
  })
  write (λ d. record d {
    agent_knowledge =
        knowledge_copies knowledge_ids 0 id (attachments_of agent db.agent_knowledge)
        ++ d.agent_knowledge;
  })
  insert_version version_id (record {
    agent_id = id;
    version = 1;
    config = snapshot_config (cloned org user slug a).settings;
    change_notes = concat "Cloned from " a.settings.name;
    created_by = user;
  })
  return (cloned org user slug a)

-- `cloneFromTemplate`, with the settings of the template that the query finds
unfoldable pub clone_from_template :
    (org user : String)
    → (template : Option Settings) → (slug id version_id : String) → M AgentsDb Agent
clone_from_template org user template slug id version_id = do
  t ← or_throw template (not_found "Template not found")
  create_agent org user t.name (snapshot_config t) slug id version_id
