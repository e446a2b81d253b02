-- ===== src/Extraction/Chunker/Conservation.antt =====
-- What chunking keeps of a document: all of it but its headings and its white space.
use ai_internship_demo_task.Prelude.{
  ℕ, ◌+◌, ◌≤◌, true, Option, none, some, List, [], ◌∷◌, ◌++◌, ◌≡◌, refl, sym, ap, ◌∙◌, arith,
  append-nil, append_assoc, map, map-append, Bool-cases, Option-cases, inl, inr, ltb, leb,
}
use ai_internship_demo_task.Prelude.Result.{ok}
use ai_internship_demo_task.Prelude.Text.{
  Text, is_space, dense, dense-strip, splitlines, strip, is_empty,
}
use ai_internship_demo_task.Extraction.Chunker.{
  Block, Chunk, blocks, blocks_from, flush, heading, non_empty, space, blank_line, pieces_of, emit,
  end_chunk, make_chunk, chunks_from, chunk_document, estimate_tokens,
}
use ai_internship_demo_task.Extraction.Chunker.Pieces.{
  dense_all, dense_all-append, dense_all-join, dense_empty, split_oversized-dense,
}

abbrev pub texts : List Block → List Text
texts bs = map (λ (b : Block). b.1) bs

abbrev pub chunk_texts : List Chunk → List Text
chunk_texts cs = map (λ (c : Chunk). c.text) cs

-- The lines that are no headings.
unfoldable pub body_lines : List Text → List Text
body_lines [] = []
body_lines (line ∷ rest) = elim (heading (strip line)) [
  | some title ↦ body_lines rest
  | none ↦ line ∷ body_lines rest
]

flush-dense :
    (section : Option Text) (ps : List Text) → dense_all (texts (flush section ps)) ≡ dense_all ps
unfolding flush
flush-dense section [] = refl
flush-dense section (p ∷ ps) =
    append-nil _ ∙ dense_all-join space (unfold dense is_space in refl) (p ∷ ps)

flush-append-dense :
    (section : Option Text) (ps : List Text) (bs : List Block)
    → dense_all (texts (flush section ps ++ bs)) ≡ dense_all ps ++ dense_all (texts bs)
flush-append-dense section ps bs = simp (map-append, dense_all-append, flush-dense section ps)

-- An empty line is no heading.
heading_empty : (s : Text) → is_empty s ≡ true → heading s ≡ none
unfolding heading
heading_empty [] e = refl
heading_empty (c ∷ s) e = cc

blank-dense : (line : Text) → is_empty (strip line) ≡ true → dense line ≡ []
blank-dense line e = sym (dense-strip line) ∙ dense_empty (strip line) e

blocks_from-dense :
    (section : Option Text) (paragraph lines : List Text)
    → dense_all (texts (blocks_from section paragraph lines))
      ≡ dense_all paragraph ++ dense_all (body_lines lines)
unfolding blocks_from body_lines
blocks_from-dense section paragraph [] = flush-dense section paragraph ∙ sym (append-nil _)
blocks_from-dense section paragraph (line ∷ rest) = elim (Bool-cases (is_empty (strip line))) [
  | inl e ↦
      rw (e, body_lines, heading_empty (strip line) e)
        (simp (flush-append-dense, blocks_from-dense section [] rest, blank-dense line e))
  | inr e ↦ elim (Option-cases (heading (strip line))) [
    | inl p ↦
        rw (e, p, body_lines)
          (simp (
            blocks_from-dense section (paragraph ++ strip line ∷ []) rest,
            dense_all-append,
            dense-strip,
            append-nil,
            append_assoc,
          ))
    | inr (title, p) ↦
        rw (e, p, body_lines)
          (simp (flush-append-dense, blocks_from-dense (non_empty (strip title)) [] rest))
  ]
]

pub texts-under :
    (section : Option Text) (ps : List Text) → texts (map (λ (p : Text). (section, p)) ps) ≡ ps
texts-under section [] = refl
texts-under section (p ∷ ps) = ap (◌∷◌ p) (texts-under section ps)

pieces_of-dense :
    (target : ℕ) (bs : List Block)
    → 1 ≤ target
    → dense_all (texts (pieces_of target bs)) ≡ dense_all (texts bs)
unfolding pieces_of
pieces_of-dense target [] t = refl
pieces_of-dense target ((section, text) ∷ bs) t = simp (
  map-append,
  texts-under section,
  dense_all-append,
  split_oversized-dense target text t,
  pieces_of-dense target bs t,
)

emit-dense :
    (source : Text) (n : ℕ) (bs : List Block)
    → dense_all (chunk_texts (emit source n bs)) ≡ dense_all (texts bs)
unfolding emit make_chunk
emit-dense source n [] = refl
emit-dense source n (b ∷ bs) =
    append-nil _ ∙ dense_all-join blank_line (unfold dense is_space in refl) (texts (b ∷ bs))

end_chunk-dense :
    (source : Text) (target m n : ℕ) (current : List Block) (tokens : ℕ)
    → dense_all (chunk_texts (end_chunk source target m n current tokens).0)
        ++ dense_all (texts (end_chunk source target m n current tokens).2)
      ≡ dense_all (texts current)
unfolding end_chunk
end_chunk-dense source target m n [] tokens = refl
end_chunk-dense source target m n (b ∷ bs) tokens = elim (Bool-cases (ltb target (tokens + m))) [
  | inl e ↦ rw e (append-nil _ ∙ emit-dense source n (b ∷ bs))
  | inr e ↦ rw e
]

push-dense :
    (bs : List Block) (b : Block)
    → dense_all (texts (bs ++ b ∷ [])) ≡ dense_all (texts bs) ++ dense b.1
push-dense bs b = simp (map-append, dense_all-append, append-nil)

chunks_from-dense :
    (source : Text) (target n : ℕ) (current : List Block) (tokens : ℕ) (bs : List Block)
    → dense_all (chunk_texts (chunks_from source target n current tokens bs))
      ≡ dense_all (texts current) ++ dense_all (texts bs)
unfolding chunks_from
chunks_from-dense source target n current tokens [] =
    emit-dense source n current ∙ sym (append-nil _)
chunks_from-dense source target n current tokens (b ∷ bs) =
    let r = end_chunk source target (estimate_tokens b.1) n current tokens in
    let before = end_chunk-dense source target (estimate_tokens b.1) n current tokens in
    let current' = r.2 ++ b ∷ [] in
    let tokens' = r.3 + estimate_tokens b.1 in
    elim (Bool-cases (leb target tokens')) [
      | inl full ↦ rw full (
          simp
            (
              map-append,
              dense_all-append,
              emit-dense source r.1 current',
              chunks_from-dense source target (r.1 + 1) [] 0 bs,
            )
            (rw (← before) (simp append_assoc)))
      | inr room ↦ rw room (
          simp
            (map-append, dense_all-append, chunks_from-dense source target r.1 current' tokens' bs)
            (rw (← before) (simp append_assoc)))
    ]

pub chunk_document-eq-ok :
    (text source : Text) (target : ℕ) {cs : List Chunk}
    → chunk_document text target source ≡ ok cs
    → (1 ≤ target) × (chunks_from source target 0 [] 0 (pieces_of target (blocks text)) ≡ cs)
unfolding chunk_document
chunk_document-eq-ok text source target h = ground arith

-- The chunks of a document, read one after the other, have exactly the characters of its lines that
-- are no headings, in order, white space apart: none is lost, doubled or moved.
pub chunk_document-dense :
    (text source : Text) (target : ℕ) {cs : List Chunk}
    → chunk_document text target source ≡ ok cs
    → dense_all (chunk_texts cs) ≡ dense_all (body_lines (splitlines text))
unfolding blocks
chunk_document-dense text source target h =
    let (positive, e) = chunk_document-eq-ok text source target h in
    rw (← e) (
      chunks_from-dense source target 0 [] 0 (pieces_of target (blocks text))
      ∙ pieces_of-dense target (blocks text) positive
      ∙ blocks_from-dense none [] (splitlines text))
