-- ===== src/Knowledge/Documents.antt =====
-- knowledge.service.ts: the upload, the reindexing and the deletion of documents. The request for a
-- URL and the storage are parameters, and the removal from the storage is left out. The ingestion of a
-- small file, which is not awaited, runs after the upload.
use ai_business_operating_sy.Base.{
  Bool, List, M, Option, Result, String, Text, [], bad_request, codes, create, ensure, err, every,
  find, get, if◌then◌else◌, internal, is_some, keep, leb, ltb, map, modify, none, not, not_found,
  ok, or_throw, return, some, split_on, write, ℕ, ◌&&◌, ◌*◌, ◌+◌, ◌==◌, ◌>>=◌, ◌>>◌, ◌||◌, ◌∷◌,
}
use ai_business_operating_sy.Runtime.State.{AuditLog, success}
use ai_business_operating_sy.Knowledge.State.{
  Document, pending, KnowledgeDb, log_audit, update_document, base_of, document_of,
}
use ai_business_operating_sy.Knowledge.Ingestion.{Pipeline, ingest_document}

pub record UploadInput : Type 0 where
  pub organization_id : String
  pub user_id : String
  pub knowledge_base_id : String
  pub buffer : Option String
  pub filename : Text
  pub mime_type : String
  pub url : Option String

-- What the storage returns of an upload
pub record StoredFile : Type 0 where
  pub key : String
  pub size : ℕ
  pub url : String

pub record Files : Type 0 where
  pub request : (url : String) → Result String
  pub upload : (org : String) → (file : String) → (name : Text) → Result StoredFile
  pub size_of : (file : String) → ℕ

abbrev pub last_of : List Text → Text
last_of [] = []
last_of (s ∷ []) = s
last_of (s ∷ t ∷ ts) = last_of (t ∷ ts)

abbrev pub first_of : List Text → Text
first_of [] = []
first_of (s ∷ ss) = s

abbrev pub or_name : Text → Text → Text
or_name [] d = d
or_name (c ∷ s) d = c ∷ s

-- `url.split('/').pop()?.split('?')[0] || 'webpage'`
abbrev pub name_of_url : Text → Text
name_of_url url = or_name (first_of (split_on 63 (last_of (split_on 47 url)))) (codes "webpage")

abbrev pub is_alnum : ℕ → Bool
is_alnum c = (leb 48 c && leb c 57) || (leb 65 c && leb c 90) || (leb 97 c && leb c 122)

abbrev pub to_lower : ℕ → ℕ
to_lower c = if leb 65 c && leb c 90 then c + 32 else c

abbrev pub extension : List Text → Text
extension (s ∷ (c ∷ e) ∷ []) = if every is_alnum (c ∷ e) then map to_lower (c ∷ e) else codes "bin"
extension (s ∷ t ∷ u ∷ ts) = extension (t ∷ u ∷ ts)
extension _ = codes "bin"

-- `extensionOf`
abbrev pub extension_of : Text → Text
extension_of filename = extension (split_on 46 filename)

abbrev pub lifted : {A : Type 0} → Result A → M KnowledgeDb A
lifted (ok a) s = (ok a, s)
lifted (err e) s = (err e, s)

-- `if (input.url)`
abbrev pub given : Option String → Option String
given none = none
given (some url) = if url == "" then none else some url

-- The file and its name: those of the URL, if there is one
abbrev pub source_of : Files → UploadInput → Option String → Result (String × Text)
source_of files input (some url) = elim (files.request url) [
  | ok file ↦ ok (file, name_of_url (codes url))
  | err e ↦ err e
]
source_of files input none = elim input.buffer [
  | some file ↦ ok (file, input.filename)
  | none ↦ err (bad_request "Either buffer or url is required")
]

abbrev pub document_log : (org : String) → (user : Option String) → (id action : String) → AuditLog
document_log org user id action = record {
  organization_id = org;
  user_id = user;
  action = action;
  resource_type = "document";
  resource_id = some id;
  result = success;
}

abbrev pub uploaded : UploadInput → Text → StoredFile → Document
uploaded input name stored = record {
  knowledge_base_id = input.knowledge_base_id;
  organization_id = input.organization_id;
  filename = stored.key;
  original_name = name;
  file_type = extension_of name;
  file_size = stored.size;
  file_url = stored.url;
  mime_type = input.mime_type;
  status = pending;
  error = none;
  uploaded_by = input.user_id;
  processed_at = none;
  deleted_at = none;
}

-- `.catch((e) => this.logger.error(…))`
abbrev pub ignored : M KnowledgeDb (Unit {0}) → M KnowledgeDb (Unit {0})
ignored m s = (ok tt, (m s).1)

module _ (pipeline : Pipeline) (files : Files) where
  -- `uploadDocument`
  unfoldable pub upload_document : UploadInput → (id : String) → (now : ℕ) → M KnowledgeDb Document
  upload_document input id now = do
    db ← get
    _kb ←
        or_throw (base_of input.organization_id input.knowledge_base_id db)
          (not_found "Knowledge base not found")
    (file, name) ← lifted (source_of files input (given input.url))
    stored ← lifted (files.upload input.organization_id file name)
    ensure (not (is_some (find id db.documents))) (internal "P2002")
    write (λ d. record d { documents = create id (uploaded input name stored) d.documents })
    log_audit (document_log input.organization_id (some input.user_id) id "document.upload")
    let ingestion : M KnowledgeDb (Unit {0}) =
        ingest_document pipeline id input.knowledge_base_id input.organization_id now
    if ltb (files.size_of file) (1024 * 1024) then ignored ingestion else ingestion
    return (uploaded input name stored)

-- `reindexDocument`
unfoldable pub reindex_document : Pipeline → (org id : String) → (now : ℕ) → M KnowledgeDb String
reindex_document pipeline org id now = do
  db ← get
  doc ← or_throw (document_of org id db) (not_found "Document not found")
  ensure (is_some (find doc.knowledge_base_id db.bases))
      (bad_request "Document has no knowledge base")
  write (λ d. record d { chunks = keep (λ c. not (c.document_id == id)) d.chunks })
  update_document id (λ d. record d { status = pending; error = none; processed_at = none })
  ingest_document pipeline id doc.knowledge_base_id org now
  return "Reindex started"

-- `deleteDocument`
unfoldable pub delete_document : (org id : String) → (now : ℕ) → M KnowledgeDb String
delete_document org id now = do
  db ← get
  _doc ← or_throw (document_of org id db) (not_found "Document not found")
  write (λ d. record d {
    chunks = keep (λ c. not (c.document_id == id)) d.chunks;
    documents = modify id (λ r. record r { deleted_at = some now }) d.documents;
  })
  log_audit (document_log org none id "document.delete")
  return "Document deleted"
