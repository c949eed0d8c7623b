-- ===== src/Knowledge/Refinement.antt =====
-- What becomes of a document that knowledge.service.ts ingests.
use ai_business_operating_sy.Base.{
  array, Bool, Bool-cases, Exception, List, M, Result, String, Table, Text, [], ap, arith,
  bad_request, bind_keeps, bind_result, codes, ensure_cases, ensure_cases, eq_refl, err, false,
  find, find-modify, first, inl, inr, length, ltb, modify, none, not, ok, refl, slice, some, suc,
  take, true, zero, ℕ, ◌+◌, ◌>>◌, ◌∙◌, ◌∷◌, ◌≡◌,
}
use ai_business_operating_sy.Runtime.State.{success}
use ai_business_operating_sy.Knowledge.State.{
  KnowledgeBase, Document, DocumentStatus, processing, completed, failed, KnowledgeDb, log_audit,
  update_document,
}
use ai_business_operating_sy.Knowledge.Chunker.{is_blank, split}
use ai_business_operating_sy.Knowledge.Ingestion.{
  Pipeline, lift, extract_with, is_done, handled, insert_batch, insert_batches, ingest_steps,
  ingest_failed, message_of, ingestion_log, ingest_document,
}

pub find_modified :
    (id : String) (f : Document → Document) (d : Document) (t : Table Document)
    → find id t ≡ some d
    → find id (modify id f t) ≡ some (f d)
find_modified id f d t h = ground (arith, find-modify id id f t, eq_refl id)

-- The document of an id, with this status
abbrev pub HasStatus : (id : String) → (DocumentStatus → Bool) → KnowledgeDb → Type 0
HasStatus id p db = (d : Document) × (find id db.documents ≡ some d) × (p d.status ≡ true)

pub update_document_lem :
    (id : String) (f : Document → Document) (d : Document) (db : KnowledgeDb)
    → find id db.documents ≡ some d
    → update_document id f db ≡ (ok tt, record db { documents = modify id f db.documents })
unfolding update_document
update_document_lem id f d db h = rw h refl

abbrev pub is_final : DocumentStatus → Bool
is_final completed = true
is_final failed = true
is_final _ = false

pub lift_cases {ℓ} :
    {A B : Type 0} (Q : Result B × KnowledgeDb → Type ℓ) (f : A → M KnowledgeDb B) (r : Result A)
    (s : KnowledgeDb)
    → ((e : Exception) → r ≡ err e → Q (err e, s))
    → ((a : A) → r ≡ ok a → Q (f a s))
    → Q (bind_result (lift r s) f)
lift_cases Q f (ok a) s bad good = good a refl
lift_cases Q f (err e) s bad good = bad e refl

module _ (pipeline : Pipeline) where
  insert_batch-documents :
      (id org metadata : String) (i : ℕ) (ps : List Text) (vs : List String) (db : KnowledgeDb)
      → (insert_batch pipeline id org metadata i ps vs db).1.documents ≡ db.documents
  unfolding insert_batch
  insert_batch-documents id org metadata i [] vs db = refl
  insert_batch-documents id org metadata i (p ∷ ps) [] db = refl
  insert_batch-documents id org metadata i (p ∷ ps) (v ∷ vs) db =
      elim (Bool-cases (pipeline.raw 8 (array ∷ []))) [
        | inl runs ↦ rw runs (insert_batch-documents id org metadata (suc i) ps vs _)
        | inr refused ↦ rw refused refl
      ]

  insert_batches-documents :
      (n : ℕ) (id org metadata model : String) (i : ℕ) (pieces : List Text) (db : KnowledgeDb)
      → (insert_batches pipeline n id org metadata model i pieces db).1.documents ≡ db.documents
  unfolding insert_batches
  insert_batches-documents zero id org metadata model i pieces db = refl
  insert_batches-documents (suc n) id org metadata model i pieces db =
      elim (Bool-cases (ltb i (length pieces))) [
        | inr done ↦ rw done refl
        | inl more ↦ rw more (
            embedded (λ s. insert_batches-documents n id org metadata model (i + 16) pieces s)
              (pipeline.embed_batch (slice pieces i (i + 16)) model))
      ]
    where
      Kept : Result (Unit {0}) × KnowledgeDb → Type 0
      Kept r = r.1.documents ≡ db.documents

      embedded :
          ((s : KnowledgeDb)
            → (insert_batches pipeline n id org metadata model (i + 16) pieces s).1.documents
              ≡ s.documents)
          → (r : Result (List String))
          → Kept (
              bind_result (lift r db) (λ vs.
                insert_batch pipeline id org metadata i (slice pieces i (i + 16)) vs
                >> insert_batches pipeline n id org metadata model (i + 16) pieces))
      embedded rest (err e) = refl
      embedded rest (ok vs) =
          bind_keeps (λ d. d.documents ≡ db.documents)
            (λ u. insert_batches pipeline n id org metadata model (i + 16) pieces)
            (insert_batch pipeline id org metadata i (slice pieces i (i + 16)) vs db)
            (insert_batch-documents id org metadata i (slice pieces i (i + 16)) vs db)
            (λ u s e same. rest s ∙ same)

  -- What the body of the `try` leaves: a completed document, or one that is there still
  abbrev Tried : (id : String) → Result (Unit {0}) × KnowledgeDb → Type 0
  Tried id (ok u, db) = HasStatus id is_final db
  Tried id (err e, db) = (d : Document) × (find id db.documents ≡ some d)

  ingest_steps-Tried :
      (id kb_id org : String) (doc : Document) (kb : KnowledgeBase) (now : ℕ) (db : KnowledgeDb)
      → find id db.documents ≡ some doc
      → Tried id (ingest_steps pipeline id kb_id org doc kb now db)
  unfolding ingest_steps
  ingest_steps-Tried id kb_id org doc kb now db found =
      rw (update_document_lem id (λ d. record d { status = processing }) doc db found) (
        lift_cases (Tried id) _ (pipeline.download doc.file_url) db1 (λ e h. (_, there))
          (λ file h.
            lift_cases (Tried id) _
              (extract_with
                (first (λ x. x.supports doc.mime_type doc.original_name) pipeline.extractors) file)
              db1 (λ e h. (_, there))
              (λ x h.
                ensure_cases (Tried id) _ (not (is_blank x.text))
                  (bad_request "No extractable text found in document") db1 (λ blank. (_, there))
                  (λ full.
                    lift_cases (Tried id) _
                      (split pipeline.tokens x.text kb.chunk_size kb.chunk_overlap) db1
                      (λ e h. (_, there))
                      (λ pieces h. inserted _ (
                        insert_batches-documents (length pieces) id org x.metadata
                          kb.embedding_model 0 pieces db1))))))
    where
      db1 : KnowledgeDb
      db1 = record db { documents = modify id (λ d. record d { status = processing }) db.documents }

      there : find id db1.documents ≡ some (record doc { status = processing })
      there = find_modified id (λ d. record d { status = processing }) doc db.documents found

      inserted :
          (r : Result (Unit {0}) × KnowledgeDb)
          → r.1.documents ≡ db1.documents
          → Tried id (
              bind_result r (λ u.
                update_document id
                  (λ d. record d { status = completed; processed_at = some now; error = none })
                >> log_audit (ingestion_log org id "document.ingested" success)))
      inserted (err e, d) same = (record doc { status = processing }, ap (find id) same ∙ there)
      inserted (ok u, d) same =
          let here = ap (find id) same ∙ there in
          rw
            (update_document_lem id
              (λ d. record d { status = completed; processed_at = some now; error = none })
              (record doc { status = processing }) d here)
            (
              record doc { status = completed; processed_at = some now; error = none },
              find_modified id
                  (λ d. record d { status = completed; processed_at = some now; error = none })
                  (record doc { status = processing }) d.documents here,
              refl,
            )

  handled-HasStatus :
      (id org : String) (r : Result (Unit {0}) × KnowledgeDb)
      → Tried id r
      → HasStatus id is_final (handled r (ingest_failed pipeline id org)).1
  handled-HasStatus id org (ok u, d) h = h
  handled-HasStatus id org (err e, d) (doc, there) =
      let f : Document → Document =
        λ d. record d { status = failed; error = some (take 1000 (codes (message_of e))) } in
      rw (update_document_lem id f doc d there)
        (f doc, find_modified id f doc d.documents there, refl)

  -- A document that is neither COMPLETED nor PROCESSING, of a base that is there, ends its ingestion
  -- COMPLETED or FAILED, whatever the storage, the extractors, the chunk sizes and the embeddings do: it
  -- is never left PENDING or PROCESSING.
  pub ingest_document-HasStatus :
      (id kb_id org : String) (now : ℕ) (doc : Document) (kb : KnowledgeBase) (db : KnowledgeDb)
      → find id db.documents ≡ some doc
      → is_done doc.status ≡ false
      → find kb_id db.bases ≡ some kb
      → HasStatus id is_final (ingest_document pipeline id kb_id org now db).1
  unfolding ingest_document
  ingest_document-HasStatus id kb_id org now doc kb db found waiting based =
      rw (found, waiting, based)
        (handled-HasStatus id org (ingest_steps pipeline id kb_id org doc kb now db)
          (ingest_steps-Tried id kb_id org doc kb now db found))
