-- ===== src/Knowledge/Ingestion.antt =====
-- knowledge.service.ts: `ingestDocument` and its helpers. The download, the extractors, the
-- embeddings and the count of tokens are parameters, as is the database client, which runs or
-- refuses the raw statement of a chunk, whose values it gets as one array, as in the source.
use ai_business_operating_sy.Base.{
  RawClient, array, run_raw, Bool, Exception, List, M, Option, Result, String, Text, [],
  bad_request, codes, conflict, ensure, err, false, find, first, forbidden, get, if◌then◌else◌,
  internal, length, ltb, none, not, not_found, ok, return, slice, some, suc, take, throw, true,
  unauthorized, write, zero, ℕ, ◌++◌, ◌+◌, ◌>>=◌, ◌>>◌, ◌∷◌,
}
use ai_business_operating_sy.Runtime.State.{AuditLog, AuditResult, success, failure}
use ai_business_operating_sy.Knowledge.State.{
  KnowledgeBase, Document, DocumentChunk, DocumentStatus, processing, completed, failed,
  KnowledgeDb, log_audit, update_document,
}
use ai_business_operating_sy.Knowledge.Chunker.{Tokens, is_blank, split}

pub record Extracted : Type 0 where
  pub text : Text
  pub metadata : String

pub record Extractor : Type 0 where
  pub supports : (mime_type : String) → (filename : Text) → Bool
  pub extract : (file : String) → Result Extracted

pub record Pipeline : Type 0 where
  pub download : (url : String) → Result String
  pub extractors : List Extractor
  pub embed_batch : (texts : List Text) → (model : String) → Result (List String)
  pub tokens : Tokens
  pub raw : RawClient

-- `EMBED_BATCH`
abbrev pub batch_size : ℕ
batch_size = 16

abbrev pub lift : {A : Type 0} → Result A → M KnowledgeDb A
lift (ok a) s = (ok a, s)
lift (err e) s = (err e, s)

-- `try { m } catch (e) { handler(e) }`
abbrev pub handled :
    Result (Unit {0}) × KnowledgeDb
    → (Exception → M KnowledgeDb (Unit {0}))
    → Result (Unit {0}) × KnowledgeDb
handled (ok u, s) handler = (ok u, s)
handled (err e, s) handler = handler e s

abbrev pub message_of : Exception → String
message_of (not_found m) = m
message_of (bad_request m) = m
message_of (unauthorized m) = m
message_of (forbidden m) = m
message_of (conflict m) = m
message_of (internal m) = m

-- `extractText`: the first extractor that supports the file
abbrev pub extract_with : Option Extractor → (file : String) → Result Extracted
extract_with none file = err (bad_request "Unsupported file type")
extract_with (some x) file = x.extract file

abbrev pub is_done : DocumentStatus → Bool
is_done completed = true
is_done processing = true
is_done _ = false

abbrev pub ingestion_log : (org id action : String) → AuditResult → AuditLog
ingestion_log org id action result = record {
  organization_id = org;
  user_id = none;
  action = action;
  resource_type = "document";
  resource_id = some id;
  result = result;
}

module _ (pipeline : Pipeline) where
  abbrev pub chunk_of : (id org : String) → ℕ → Text → (metadata vector : String) → DocumentChunk
  chunk_of id org i piece metadata vector = record {
    document_id = id;
    organization_id = org;
    content = piece;
    chunk_index = i;
    token_count = pipeline.tokens.count piece;
    metadata = metadata;
    embedding = vector;
  }

  -- `insertChunk` of each piece of a batch, with `embeddings[j]`, which has to be there
  unfoldable pub insert_batch :
      (id org metadata : String)
      → ℕ
      → List Text
      → (vectors : List String) → M KnowledgeDb (Unit {0})
  insert_batch id org metadata i [] vectors = return tt
  insert_batch id org metadata i (p ∷ ps) [] = throw (internal "embedding is undefined")
  insert_batch id org metadata i (p ∷ ps) (v ∷ vs) = do
    run_raw pipeline.raw 8 (array ∷ [])
    write (λ d. record d { chunks = d.chunks ++ chunk_of id org i p metadata v ∷ [] })
    insert_batch id org metadata (suc i) ps vs

  -- `for (let i = 0; i < pieces.length; i += EMBED_BATCH)`
  unfoldable pub insert_batches :
      (fuel : ℕ) → (id org metadata model : String) → ℕ → List Text → M KnowledgeDb (Unit {0})
  insert_batches zero id org metadata model i pieces = return tt
  insert_batches (suc n) id org metadata model i pieces =
      let batch = slice pieces i (i + batch_size) in
      let rest = insert_batches n id org metadata model (i + batch_size) pieces in
      let step : M KnowledgeDb (Unit {0}) = lift (pipeline.embed_batch batch model) >>= λ vs.
      insert_batch id org metadata i batch vs >> rest in
      if ltb i (length pieces) then step else return tt

  -- The body of the `try`
  unfoldable pub ingest_steps :
      (id kb_id org : String) → Document → KnowledgeBase → (now : ℕ) → M KnowledgeDb (Unit {0})
  ingest_steps id kb_id org doc kb now = do
    update_document id (λ d. record d { status = processing })
    file ← lift (pipeline.download doc.file_url)
    x ← lift (
        extract_with (first (λ x. x.supports doc.mime_type doc.original_name) pipeline.extractors)
          file)
    ensure (not (is_blank x.text)) (bad_request "No extractable text found in document")
    pieces ← lift (split pipeline.tokens x.text kb.chunk_size kb.chunk_overlap)
    insert_batches (length pieces) id org x.metadata kb.embedding_model 0 pieces
    update_document id (λ d. record d { status = completed; processed_at = some now; error = none })
    log_audit (ingestion_log org id "document.ingested" success)

  -- The body of the `catch`
  abbrev pub ingest_failed : (id org : String) → Exception → M KnowledgeDb (Unit {0})
  ingest_failed id org e = do
    update_document id
        (λ d. record d { status = failed; error = some (take 1000 (codes (message_of e))) })
    log_audit (ingestion_log org id "document.ingestion_failed" failure)

  abbrev pub ingest_into :
      (id kb_id org : String)
      → Document
      → Option KnowledgeBase
      → (now : ℕ) → M KnowledgeDb (Unit {0})
  ingest_into id kb_id org doc none now db = (ok tt, db)
  ingest_into id kb_id org doc (some kb) now db =
      handled (ingest_steps id kb_id org doc kb now db) (ingest_failed id org)

  abbrev pub ingest_found :
      (id kb_id org : String) → Option Document → (now : ℕ) → M KnowledgeDb (Unit {0})
  ingest_found id kb_id org none now = return tt
  ingest_found id kb_id org (some doc) now = do
    db ← get
    if is_done doc.status then return tt else ingest_into id kb_id org doc (find kb_id db.bases) now

  -- `ingestDocument`
  unfoldable pub ingest_document : (id kb_id org : String) → (now : ℕ) → M KnowledgeDb (Unit {0})
  ingest_document id kb_id org now = do
    db ← get
    ingest_found id kb_id org (find id db.documents) now
