-- ===== src/Knowledge/State.antt =====
-- The rows of knowledge.service.ts. The content of a file is its text, a vector of an embedding and
-- the metadata of a document are theirs, and a text that is cut is the list of its code units. The
-- files in the storage are left out.
use ai_business_operating_sy.Base.{
  List, M, Option, String, Table, Text, ensure, find, get, internal, is_some, modify, not, such,
  write, ℕ, ◌&&◌, ◌==◌, ◌>>=◌, ◌>>◌, ◌∷◌,
}
use ai_business_operating_sy.Runtime.State.{AuditLog}

pub record KnowledgeBase : Type 0 where
  pub organization_id : String
  pub name : String
  pub description : Option String
  pub embedding_model : String
  pub chunk_size : ℕ
  pub chunk_overlap : ℕ
  pub deleted_at : Option ℕ

pub data DocumentStatus : Type 0 where
  pending processing completed failed : DocumentStatus

pub record Document : Type 0 where
  pub knowledge_base_id : String
  pub organization_id : String
  pub filename : String
  pub original_name : Text
  pub file_type : Text
  pub file_size : ℕ
  pub file_url : String
  pub mime_type : String
  pub status : DocumentStatus
  pub error : Option Text
  pub uploaded_by : String
  pub processed_at : Option ℕ
  pub deleted_at : Option ℕ

-- A row of `document_chunks`
pub record DocumentChunk : Type 0 where
  pub document_id : String
  pub organization_id : String
  pub content : Text
  pub chunk_index : ℕ
  pub token_count : ℕ
  pub metadata : String
  pub embedding : String

-- The chunks are in the order of their insertion.
pub record KnowledgeDb : Type 0 where
  pub bases : Table KnowledgeBase
  pub documents : Table Document
  pub chunks : List DocumentChunk
  pub audits : List AuditLog

abbrev pub log_audit : AuditLog → M KnowledgeDb (Unit {0})
log_audit a = write (λ d. record d { audits = a ∷ d.audits })

-- `document.update`, which throws if the row is gone
unfoldable pub update_document : (id : String) → (Document → Document) → M KnowledgeDb (Unit {0})
update_document id f = do
  db ← get
  ensure (is_some (find id db.documents)) (internal "P2025")
  write (λ d. record d { documents = modify id f d.documents })

-- `findFirst({ where: { id, organizationId, deletedAt: null } })` of a base and of a document
abbrev pub base_of : (org id : String) → KnowledgeDb → Option KnowledgeBase
base_of org id db =
    such (λ b. b.organization_id == org && not (is_some b.deleted_at)) (find id db.bases)

abbrev pub document_of : (org id : String) → KnowledgeDb → Option Document
document_of org id db =
    such (λ d. d.organization_id == org && not (is_some d.deleted_at)) (find id db.documents)
