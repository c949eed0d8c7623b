-- ===== src/Knowledge/Erased.antt =====
-- What `reindexDocument` of knowledge.service.ts leaves of the chunks.
use ai_business_operating_sy.Base.{
  List, Spreads, String, bind_keeps, find, is_some, keep, modify, none, not, return, some,
  such-eq-some, ℕ, ◌&&◌, ◌==◌, ◌≡◌,
}
use ai_business_operating_sy.Knowledge.State.{
  KnowledgeBase, Document, DocumentChunk, pending, KnowledgeDb, document_of,
}
use ai_business_operating_sy.Knowledge.Ingestion.{Pipeline, ingest_document}
use ai_business_operating_sy.Knowledge.Inserted.{ingest_document-Unwritten}
use ai_business_operating_sy.Knowledge.Refinement.{update_document_lem}
use ai_business_operating_sy.Knowledge.Documents.{reindex_document}

-- The chunks of the other documents
abbrev pub other_chunks : (id : String) → List DocumentChunk → List DocumentChunk
other_chunks id cs = keep (λ c. not (c.document_id == id)) cs

-- With a client that spreads its arguments, the reindexing of a document of the organization leaves
-- none of its chunks, and those of the other documents, whatever its file and the embeddings are.
pub reindex_document-erases :
    (pipeline : Pipeline) (org id : String) (now : ℕ) (doc : Document) (kb : KnowledgeBase)
    (db : KnowledgeDb)
    → Spreads pipeline.raw
    → document_of org id db ≡ some doc
    → find doc.knowledge_base_id db.bases ≡ some kb
    → (reindex_document pipeline org id now db).1.chunks ≡ other_chunks id db.chunks
unfolding reindex_document
reindex_document-erases pipeline org id now doc kb db spreads own based =
    let (found, kept) =
      such-eq-some (λ d. d.organization_id == org && not (is_some d.deleted_at))
        (find id db.documents) doc own in
    let reset : Document → Document =
      λ d. record d { status = pending; error = none; processed_at = none } in
    let d1 : KnowledgeDb = record db { chunks = other_chunks id db.chunks } in
    let d2 : KnowledgeDb = record d1 { documents = modify id reset db.documents } in
    rw (own, based, update_document_lem id reset doc d1 found)
      (bind_keeps (λ d. d.chunks ≡ other_chunks id db.chunks) (λ u. return "Reindex started")
        (ingest_document pipeline id doc.knowledge_base_id org now d2)
        (ingest_document-Unwritten pipeline spreads id doc.knowledge_base_id org now d2)
        (λ u s e same. same))
