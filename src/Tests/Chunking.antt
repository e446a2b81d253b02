-- ===== src/Tests/Chunking.antt =====
-- The chunker on the document of the repository's own test, and on one that is cut inside a sentence.
use ai_internship_demo_task.Prelude.{◌≤◌, ◌*◌, some, List, [], ◌∷◌, ◌≡◌, refl, All, map}
use ai_internship_demo_task.Prelude.Result.{ok}
use ai_internship_demo_task.Prelude.Text.{Text, codes, splitlines, join, decimal, strip}
use ai_internship_demo_task.Extraction.Chunker.{
  Chunk, blocks, split_oversized, sentences, pieces_of, end_piece, end_chunk, emit, make_chunk,
  chunks_from, chunk_document, heading, flush, flush_piece, slices, estimate_tokens, non_empty,
  is_stop,
}
use ai_internship_demo_task.Prelude.Text.{is_space}
use ai_internship_demo_task.Extraction.Chunker.Pieces.{dense_all}
use ai_internship_demo_task.Extraction.Chunker.Conservation.{
  chunk_texts, body_lines, chunk_document-dense,
}
use ai_internship_demo_task.Extraction.Chunker.Numbering.{chunk_document_estimates}

program : Unit {0}
unfolding blocks split_oversized sentences pieces_of end_piece end_chunk emit make_chunk chunks_from
    heading flush flush_piece slices estimate_tokens non_empty is_stop is_space strip join decimal
    splitlines chunk_document
program = tt

abbrev document : Text
document = codes "# Intro\n\nFirst paragraph.\n\nSecond paragraph."

abbrev source : Text
source = codes "doc"

abbrev chunks : List Chunk
chunks = chunks_from source 6 0 [] 0 (pieces_of 6 (blocks document))

chunked : chunk_document document 6 source ≡ ok chunks
unfolding chunk_document
chunked = refl

two_paragraphs :
    map (λ (c : Chunk). c.text) chunks ≡ codes "First paragraph." ∷ codes "Second paragraph." ∷ []
unfolding program
two_paragraphs = refl

in_sections :
    map (λ (c : Chunk). c.section) chunks ≡ some (codes "Intro") ∷ some (codes "Intro") ∷ []
unfolding program
in_sections = refl

cut_sentence :
    split_oversized (codes "One two. Three four five.") 3
    ≡ codes "One two." ∷ codes "Three four f" ∷ codes "ive." ∷ []
unfolding program
cut_sentence = refl

chunk_document-dense_example :
    dense_all (chunk_texts chunks) ≡ dense_all (body_lines (splitlines document))
chunk_document-dense_example = chunk_document-dense document source 6 chunked

chunk_document_estimates_example :
    All (λ (c : Chunk). (1 ≤ c.token_estimate) × (2 * c.token_estimate ≤ 3 * 6)) chunks
chunk_document_estimates_example = chunk_document_estimates document source 6 chunked
