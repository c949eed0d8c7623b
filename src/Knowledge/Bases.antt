-- ===== src/Knowledge/Bases.antt =====
-- knowledge.service.ts: the operations on knowledge bases that change them.
use ai_business_operating_sy.Base.{
  M, Option, String, create, ensure, find, get, internal, is_some, modify, modify_where, none, not,
  not_found, or_default, or_else, or_throw, return, some, write, ℕ, ◌==◌, ◌>>=◌, ◌>>◌,
}
use ai_business_operating_sy.Knowledge.State.{KnowledgeBase, KnowledgeDb, base_of}

pub record CreateKnowledgeBase : Type 0 where
  pub name : String
  pub description : Option String
  pub embedding_model : Option String
  pub chunk_size : Option ℕ
  pub chunk_overlap : Option ℕ

pub record UpdateKnowledgeBase : Type 0 where
  pub name : Option String
  pub description : Option String
  pub chunk_size : Option ℕ
  pub chunk_overlap : Option ℕ

-- `createBase`
unfoldable pub create_base :
    (org : String) → CreateKnowledgeBase → (id : String) → M KnowledgeDb KnowledgeBase
create_base org dto id = do
  db ← get
  ensure (not (is_some (find id db.bases))) (internal "P2002")
  let b : KnowledgeBase = record {
    organization_id = org;
    name = dto.name;
    description = dto.description;
    embedding_model = or_default dto.embedding_model "text-embedding-3-small";
    chunk_size = or_default dto.chunk_size 800;
    chunk_overlap = or_default dto.chunk_overlap 200;
    deleted_at = none;
  }
  write (λ d. record d { bases = create id b d.bases })
  return b

-- A member that is `undefined` is not updated.
abbrev pub apply_base : UpdateKnowledgeBase → KnowledgeBase → KnowledgeBase
apply_base dto b = record b {
  name = or_default dto.name b.name;
  description = or_else dto.description b.description;
  chunk_size = or_default dto.chunk_size b.chunk_size;
  chunk_overlap = or_default dto.chunk_overlap b.chunk_overlap;
}

-- `updateBase`
unfoldable pub update_base : (org id : String) → UpdateKnowledgeBase → M KnowledgeDb (Unit {0})
update_base org id dto = do
  db ← get
  _b ← or_throw (base_of org id db) (not_found "Knowledge base not found")
  write (λ d. record d { bases = modify id (apply_base dto) d.bases })

-- `archiveBase`
unfoldable pub archive_base : (org id : String) → (now : ℕ) → M KnowledgeDb String
archive_base org id now = do
  db ← get
  _b ← or_throw (base_of org id db) (not_found "Knowledge base not found")
  write (λ d. record d {
    bases = modify id (λ b. record b { deleted_at = some now }) d.bases;
    documents =
        modify_where (λ r. r.knowledge_base_id == id) (λ r. record r { deleted_at = some now })
          d.documents;
  })
  return "Knowledge base archived"
