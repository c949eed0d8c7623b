-- ===== src/Knowledge/Examples.antt =====
-- A short text file in a knowledge base of the organization "acme".
use ai_business_operating_sy.Base.{
  none, ◌⊎◌, ◌++◌, arith, spreading, spreading-Spreads, List, String, Text, [], arith, codes, false,
  find, length, map, none, ok, refl, some, true, ◌++◌, ◌∷◌, ◌≡◌,
}
use ai_business_operating_sy.Knowledge.State.{
  KnowledgeBase, Document, DocumentChunk, failed, KnowledgeDb, document_of,
}
use ai_business_operating_sy.Knowledge.Chunker.{
  Tokens, is_space, trim_start, unix_lines, trim_lines, squeeze_lines, squeeze_blanks, split_by,
  hard_split_from, recursive_split, tail_tokens, merge_all, merge_pieces, split, is_blank,
}
use ai_business_operating_sy.Knowledge.Ingestion.{Extracted, Pipeline, ingest_document}
use ai_business_operating_sy.Knowledge.Documents.{reindex_document}
use ai_business_operating_sy.Knowledge.Refinement.{HasStatus, is_final, ingest_document-HasStatus}
use ai_business_operating_sy.Knowledge.Inserted.{IsReadable, ingest_document-fails}
use ai_business_operating_sy.Knowledge.Erased.{other_chunks, reindex_document-erases}
use ai_business_operating_sy.Knowledge.Pieces.{flatten, merge_pieces-flatten}

abbrev tokens : Tokens
tokens = record { count = λ s. length s; encode = λ s. some s; decode_utf8 = λ s. s }

some_inj : (a b : Text) → some a ≡ some b → a ≡ b
some_inj a b e = cc

abbrev text : Text
text = codes "Returns:  30 days"

abbrev extracted : Extracted
extracted = record { text = text; metadata = "{}" }

abbrev vector : Text → String
vector s = "[1]"

abbrev pipeline : Pipeline
pipeline = record {
  download = λ url. ok "file";
  extractors = record { supports = λ mime name. true; extract = λ file. ok extracted } ∷ [];
  embed_batch = λ texts model. ok (map vector texts);
  tokens = tokens;
  raw = spreading;
}

abbrev base : KnowledgeBase
base = record {
  organization_id = "acme";
  name = "Policies";
  description = none;
  embedding_model = "text-embedding-3-small";
  chunk_size = 10;
  chunk_overlap = 2;
  deleted_at = none;
}

abbrev document : Document
document = record {
  knowledge_base_id = "b1";
  organization_id = "acme";
  filename = "knowledge/1";
  original_name = codes "returns.txt";
  file_type = codes "txt";
  file_size = 17;
  file_url = "s3://files/knowledge/1";
  mime_type = "text/plain";
  status = failed;
  error = none;
  uploaded_by = "ada";
  processed_at = none;
  deleted_at = none;
}

abbrev old_chunk : DocumentChunk
old_chunk = record {
  document_id = "d1";
  organization_id = "acme";
  content = codes "Returns";
  chunk_index = 0;
  token_count = 7;
  metadata = "{}";
  embedding = "[1]";
}

abbrev knowledge : KnowledgeDb
knowledge = record {
  bases = ("b1", base) ∷ [];
  documents = ("d1", document) ∷ [];
  chunks = old_chunk ∷ [];
  audits = [];
}

abbrev pieces : List Text
pieces = codes "Returns:" ∷ codes ": 30 days" ∷ []

text_is_split : split tokens text 10 2 ≡ ok pieces
unfolding split is_space trim_start unix_lines trim_lines squeeze_lines squeeze_blanks split_by
    hard_split_from recursive_split tail_tokens merge_all merge_pieces
text_is_split = refl

document_found : find "d1" knowledge.documents ≡ some document
unfolding find
document_found = refl

base_found : find "b1" knowledge.bases ≡ some base
unfolding find
base_found = refl

text_has_more : is_blank text ≡ false
unfolding is_space
text_has_more = refl

document_can_be_read : IsReadable pipeline spreading-Spreads document base extracted pieces
document_can_be_read = record {
  file = "file";
  downloaded = refl;
  extracted = refl;
  has_text = text_has_more;
  cut = text_is_split;
}

ingest_document-HasStatus_example :
    HasStatus "d1" is_final (ingest_document pipeline "d1" "b1" "acme" 9 knowledge).1
ingest_document-HasStatus_example =
    ingest_document-HasStatus pipeline "d1" "b1" "acme" 9 document base knowledge document_found
      refl base_found

ingest_document-fails_example :
    let r = ingest_document pipeline "d1" "b1" "acme" 9 knowledge in
    (r.0 ≡ ok tt)
    × (r.1.chunks ≡ old_chunk ∷ [])
    × ((d : Document) × (find "d1" r.1.documents ≡ some d) × (d.status ≡ failed))
ingest_document-fails_example =
    ingest_document-fails pipeline spreading-Spreads "d1" "b1" "acme" 9 document base extracted
      (codes "Returns:") (codes ": 30 days" ∷ []) knowledge document_found refl base_found
      document_can_be_read

document_is_own : document_of "acme" "d1" knowledge ≡ some document
unfolding find
document_is_own = refl

reindex_document-erases_example :
    (reindex_document pipeline "acme" "d1" 9 knowledge).1.chunks
    ≡ other_chunks "d1" (old_chunk ∷ [])
reindex_document-erases_example =
    reindex_document-erases pipeline "acme" "d1" 9 document base knowledge spreading-Spreads
      document_is_own base_found

merge_pieces-flatten_example :
    ((s : Text) × (tokens.encode s ≡ none) × (merge_pieces tokens pieces 10 0 ≡ none))
    ⊎ ((chunks : List Text) × (rest : Text) × (merge_pieces tokens pieces 10 0 ≡ some chunks)
        × (is_blank rest ≡ true)
        × (flatten chunks ++ rest ≡ flatten pieces))
merge_pieces-flatten_example =
    merge_pieces-flatten tokens pieces 10 (omega arith) refl (λ s e. some_inj s [] e)
