-- ===== src/Knowledge/Inserted.antt =====
-- The chunks that the ingestion of knowledge.service.ts inserts, with a client that spreads the values
-- of a raw statement.
use ai_business_operating_sy.Base.{
  Bool-cases, Exception, List, Result, Spreads, String, Text, [], arith, array_is_refused,
  bad_request, bind_keeps, bind_result, codes, ensure_cases, err, false, find, first, inl, inr,
  length, ltb, modify, none, not, ok, refl, slice, some, suc, take, true, zero, ℕ, ◌+◌, ◌>>◌, ◌∙◌,
  ◌∷◌, ◌≡◌, Option,
}
use ai_business_operating_sy.Knowledge.State.{
  KnowledgeBase, Document, processing, failed, KnowledgeDb, update_document,
}
use ai_business_operating_sy.Knowledge.Chunker.{is_blank, split}
use ai_business_operating_sy.Knowledge.Ingestion.{
  Extracted, Pipeline, extract_with, is_done, handled, insert_batch, insert_batches, message_of,
  ingest_steps, ingest_failed, ingest_found, ingest_document,
}
use ai_business_operating_sy.Knowledge.Refinement.{find_modified, update_document_lem, lift_cases}

-- The chunks are the same.
abbrev pub Unwritten : {A : Type 0} → KnowledgeDb → Result A × KnowledgeDb → Type 0
Unwritten db r = r.1.chunks ≡ db.chunks

update_document-chunks :
    (id : String) (f : Document → Document) (db : KnowledgeDb)
    → Unwritten db (update_document id f db)
unfolding update_document
update_document-chunks id f db = ground arith

module _ (pipeline : Pipeline) (spreads : Spreads pipeline.raw) where
  insert_batch-Unwritten :
      (id org metadata : String) (i : ℕ) (ps : List Text) (vs : List String) (db : KnowledgeDb)
      → Unwritten db (insert_batch pipeline id org metadata i ps vs db)
  unfolding insert_batch
  insert_batch-Unwritten id org metadata i [] vs db = refl
  insert_batch-Unwritten id org metadata i (p ∷ ps) [] db = refl
  insert_batch-Unwritten id org metadata i (p ∷ ps) (v ∷ vs) db =
      rw (array_is_refused pipeline.raw spreads 8) refl

  insert_batches-Unwritten :
      (n : ℕ) (id org metadata model : String) (i : ℕ) (pieces : List Text) (db : KnowledgeDb)
      → Unwritten db (insert_batches pipeline n id org metadata model i pieces db)
  unfolding insert_batches
  insert_batches-Unwritten zero id org metadata model i pieces db = refl
  insert_batches-Unwritten (suc n) id org metadata model i pieces db =
      elim (Bool-cases (ltb i (length pieces))) [
        | inr done ↦ rw done refl
        | inl more ↦ rw more (
            lift_cases (Unwritten db) _ (pipeline.embed_batch (slice pieces i (i + 16)) model) db
              (λ e h. refl)
              (λ vs h.
                bind_keeps (λ d. d.chunks ≡ db.chunks) _
                  (insert_batch pipeline id org metadata i (slice pieces i (i + 16)) vs db)
                  (insert_batch-Unwritten id org metadata i (slice pieces i (i + 16)) vs db)
                  (λ u s e same.
                    insert_batches-Unwritten n id org metadata model (i + 16) pieces s ∙ same)))
      ]

  ingest_steps-Unwritten :
      (id kb_id org : String) (doc : Document) (kb : KnowledgeBase) (now : ℕ) (db : KnowledgeDb)
      → Unwritten db (ingest_steps pipeline id kb_id org doc kb now db)
  unfolding ingest_steps
  ingest_steps-Unwritten id kb_id org doc kb now db =
      bind_keeps (λ d. d.chunks ≡ db.chunks) _
        (update_document id (λ d. record d { status = processing }) db)
        (update_document-chunks id (λ d. record d { status = processing }) db)
        (λ u s e same.
          lift_cases (Unwritten db) _ (pipeline.download doc.file_url) s (λ e h. same)
            (λ file h.
              lift_cases (Unwritten db) _
                (extract_with
                  (first (λ x. x.supports doc.mime_type doc.original_name) pipeline.extractors)
                  file)
                s (λ e h. same)
                (λ x h.
                  ensure_cases (Unwritten db) _ (not (is_blank x.text))
                    (bad_request "No extractable text found in document") s (λ blank. same)
                    (λ full.
                      lift_cases (Unwritten db) _
                        (split pipeline.tokens x.text kb.chunk_size kb.chunk_overlap) s
                        (λ e h. same)
                        (λ pieces h.
                          bind_keeps (λ d. d.chunks ≡ db.chunks) _
                            (insert_batches pipeline (length pieces) id org x.metadata
                              kb.embedding_model 0 pieces s)
                            (insert_batches-Unwritten (length pieces) id org x.metadata
                                kb.embedding_model 0 pieces s
                              ∙ same)
                            (λ u t e2 same2.
                              bind_keeps (λ d. d.chunks ≡ db.chunks) _ (update_document id _ t)
                                (update_document-chunks id _ t ∙ same2)
                                (λ u w e3 same3. same3)))))))

  handled-Unwritten :
      (id org : String) (db : KnowledgeDb) (r : Result (Unit {0}) × KnowledgeDb)
      → Unwritten db r
      → Unwritten db (handled r (ingest_failed pipeline id org))
  handled-Unwritten id org db (ok u, s) same = same
  handled-Unwritten id org db (err e, s) same =
      bind_keeps (λ d. d.chunks ≡ db.chunks) _ (update_document id _ s)
        (update_document-chunks id _ s ∙ same) (λ u w e2 same2. same2)

  -- With a client that spreads its arguments no ingestion adds or removes a chunk.
  pub ingest_document-Unwritten :
      (id kb_id org : String) (now : ℕ) (db : KnowledgeDb)
      → Unwritten db (ingest_document pipeline id kb_id org now db)
  unfolding ingest_document
  ingest_document-Unwritten id kb_id org now db =
      go (find id db.documents) (find kb_id db.bases) refl
    where
      go :
          (o : Option Document) (b : Option KnowledgeBase)
          → find kb_id db.bases ≡ b
          → Unwritten db (ingest_found pipeline id kb_id org o now db)
      go none b e = refl
      go (some doc) none e = elim (Bool-cases (is_done doc.status)) [
        | inl done ↦ rw done refl
        | inr waiting ↦ rw (waiting, e) refl
      ]
      go (some doc) (some kb) e = elim (Bool-cases (is_done doc.status)) [
        | inl done ↦ rw done refl
        | inr waiting ↦
            rw (waiting, e)
              (handled-Unwritten id org db (ingest_steps pipeline id kb_id org doc kb now db)
                (ingest_steps-Unwritten id kb_id org doc kb now db))
      ]

  -- What a file is cut into, if it can be read
  pub record IsReadable (doc : Document) (kb : KnowledgeBase) (x : Extracted) (pieces : List Text)
      : Type 0 where
    pub file : String
    pub downloaded : pipeline.download doc.file_url ≡ ok file
    pub extracted :
        extract_with
          (first (λ x. x.supports doc.mime_type doc.original_name) pipeline.extractors)
          file
        ≡ ok x
    pub has_text : is_blank x.text ≡ false
    pub cut : split pipeline.tokens x.text kb.chunk_size kb.chunk_overlap ≡ ok pieces

  -- A first piece ends the loop over the batches with an error, whatever the embeddings are.
  insert_batches-fails :
      (n : ℕ) (id org metadata model : String) (p : Text) (ps : List Text) (db : KnowledgeDb)
      → (e : Exception) × (insert_batches pipeline (suc n) id org metadata model 0 (p ∷ ps) db
          ≡ (err e, db))
  unfolding insert_batches insert_batch
  insert_batches-fails n id org metadata model p ps db =
      let more : ltb 0 (suc (length ps)) ≡ true = ground arith in
      rw more (
        lift_cases (λ r. (e : Exception) × (r ≡ (err e, db)))
          (λ vs.
            insert_batch pipeline id org metadata 0 (slice (p ∷ ps) 0 16) vs
            >> insert_batches pipeline n id org metadata model 16 (p ∷ ps))
          (pipeline.embed_batch (slice (p ∷ ps) 0 16) model) db (λ e h. (e, refl)) (λ vs h. go vs))
    where
      go :
          (vs : List String)
          → (e : Exception) × (bind_result
                (insert_batch pipeline id org metadata 0 (slice (p ∷ ps) 0 16) vs db)
                (λ u. insert_batches pipeline n id org metadata model 16 (p ∷ ps))
              ≡ (err e, db))
      go [] = (_, refl)
      go (v ∷ vs) = rw (array_is_refused pipeline.raw spreads 8) (_, refl)

  -- With a client that spreads its arguments, the ingestion of a document whose file can be read and
  -- gives at least one piece returns, with the document FAILED and the chunks as they were, whatever the
  -- embeddings are.
  pub ingest_document-fails :
      (id kb_id org : String) (now : ℕ) (doc : Document) (kb : KnowledgeBase) (x : Extracted)
      (p : Text) (ps : List Text) (db : KnowledgeDb)
      → find id db.documents ≡ some doc
      → is_done doc.status ≡ false
      → find kb_id db.bases ≡ some kb
      → IsReadable doc kb x (p ∷ ps)
      → let r = ingest_document pipeline id kb_id org now db in
        (r.0 ≡ ok tt)
        × (r.1.chunks ≡ db.chunks)
        × ((d : Document) × (find id r.1.documents ≡ some d) × (d.status ≡ failed))
  unfolding ingest_document ingest_steps
  ingest_document-fails id kb_id org now doc kb x p ps db found waiting based readable =
      let f : Document → Document = λ d. record d { status = processing } in
      let db1 : KnowledgeDb = record db { documents = modify id f db.documents } in
      let (e, stopped) =
        insert_batches-fails (length ps) id org x.metadata kb.embedding_model p ps db1 in
      let there = find_modified id f doc db.documents found in
      let g : Document → Document =
        λ d. record d { status = failed; error = some (take 1000 (codes (message_of e))) } in
      rw
        (
          found,
          waiting,
          based,
          update_document_lem id f doc db found,
          readable.downloaded,
          readable.extracted,
          readable.has_text,
          readable.cut,
          stopped,
          update_document_lem id g (f doc) db1 there,
        )
        (refl, refl, (g (f doc), find_modified id g (f doc) db1.documents there, refl))
