-- ===== src/Extraction/Chunker/Sizes.antt =====
-- How long the chunks of a document can be.
use ai_internship_demo_task.Prelude.{
  ℕ, ◌+◌, ◌*◌, ◌≤◌, Option, none, List, [], ◌∷◌, ◌++◌, ◌≡◌, refl, arith, map-append, Bool-cases,
  Option-cases, inl, inr, ltb, leb, All, All-append, ltb_false→le, length, ◌⊎◌,
}
use ai_internship_demo_task.Prelude.Result.{ok}
use ai_internship_demo_task.Prelude.Text.{Text, is_empty, join, strip, splitlines}
use ai_internship_demo_task.Extraction.Chunker.{
  Block, Chunk, blocks, blocks_from, flush, heading, non_empty, space, blank_line, pieces_of,
  split_oversized, emit, end_chunk, make_chunk, chunks_from, chunk_document, estimate_tokens,
}
use ai_internship_demo_task.Extraction.Chunker.Conservation.{
  texts, texts-under, chunk_texts, chunk_document-eq-ok,
}
use ai_internship_demo_task.Extraction.Chunker.Bounds.{
  Fits, IsCurrent, IsCurrent-nil, push-IsCurrent, solid_of, join_bound, tokens-nil,
  split_oversized-Fits,
}

abbrev pub IsSolid : Text → Type 0
IsSolid s = 1 ≤ length s

flush-IsSolid :
    (section : Option Text) (ps : List Text)
    → All IsSolid ps
    → All IsSolid (texts (flush section ps))
unfolding flush
flush-IsSolid section [] h = tt
flush-IsSolid section (p ∷ ps) h = ((join_bound space p ps h).0, tt)

flush-append-IsSolid :
    (section : Option Text) (ps : List Text) (bs : List Block)
    → All IsSolid ps
    → All IsSolid (texts bs)
    → All IsSolid (texts (flush section ps ++ bs))
flush-append-IsSolid section ps bs h k =
    rw map-append
      (All-append IsSolid (texts (flush section ps)) (texts bs) (flush-IsSolid section ps h) k)

-- No paragraph is empty.
blocks_from-IsSolid :
    (section : Option Text) (paragraph lines : List Text)
    → All IsSolid paragraph
    → All IsSolid (texts (blocks_from section paragraph lines))
unfolding blocks_from
blocks_from-IsSolid section paragraph [] h = flush-IsSolid section paragraph h
blocks_from-IsSolid section paragraph (line ∷ rest) h = elim (Bool-cases (is_empty (strip line))) [
  | inl e ↦
      rw e (flush-append-IsSolid section paragraph _ h (blocks_from-IsSolid section [] rest tt))
  | inr e ↦ elim (Option-cases (heading (strip line))) [
    | inl p ↦
        rw (e, p)
          (blocks_from-IsSolid section (paragraph ++ strip line ∷ []) rest
            (All-append IsSolid paragraph (strip line ∷ []) h (solid_of (strip line) e, tt)))
    | inr (title, p) ↦
        rw (e, p)
          (flush-append-IsSolid section paragraph _ h
            (blocks_from-IsSolid (non_empty (strip title)) [] rest tt))
  ]
]

pieces_of-Fits :
    (target : ℕ) (bs : List Block)
    → 1 ≤ target
    → All IsSolid (texts bs)
    → All (Fits (5 * target)) (texts (pieces_of target bs))
unfolding pieces_of
pieces_of-Fits target [] t h = tt
pieces_of-Fits target ((section, text) ∷ bs) t h =
    rw (map-append, texts-under section)
      (All-append _ (split_oversized text target) _ (split_oversized-Fits target text t h.0)
        (pieces_of-Fits target bs t h.1))

-- What is promised of a chunk's text.
abbrev pub ChunkFits : ℕ → Text → Type 0
ChunkFits target s = (1 ≤ length s) × (length s + 2 ≤ 6 * target)

emit-Fits :
    (source : Text) (target n : ℕ) (bs : List Block) (tokens : ℕ)
    → IsCurrent target (texts bs) tokens
    → All (ChunkFits target) (chunk_texts (emit source n bs))
unfolding emit make_chunk
emit-Fits source target n [] tokens v = tt
emit-Fits source target n (b ∷ bs) tokens v =
    let bound = join_bound blank_line b.1 (texts bs) v.solid in
    ((bound.0, omega (arith, v.counted, v.fits)), tt)

-- A piece that is a chunk by itself.
emit-single-Fits :
    (source : Text) (target n : ℕ) (b : Block)
    → 1 ≤ target
    → Fits (5 * target) b.1
    → All (ChunkFits target) (chunk_texts (emit source n (b ∷ [])))
unfolding emit make_chunk join
emit-single-Fits source target n b t f = ((f.0, omega arith), tt)

end_chunk-IsCurrent :
    (source : Text) (target m n : ℕ) (current : List Block) (tokens : ℕ)
    → IsCurrent target (texts current) tokens
    → let r = end_chunk source target m n current tokens in
      IsCurrent target (texts r.2) r.3
      × All (ChunkFits target) (chunk_texts r.0)
      × (((r.2 ≡ []) × (r.3 ≡ 0)) ⊎ (r.3 + m ≤ target))
unfolding end_chunk
end_chunk-IsCurrent source target m n [] tokens v = (v, tt, inl (refl, tokens-nil v))
end_chunk-IsCurrent source target m n (b ∷ bs) tokens v =
    elim (Bool-cases (ltb target (tokens + m))) [
      | inl full ↦
          rw full
            (IsCurrent-nil target, emit-Fits source target n (b ∷ bs) tokens v, inl (refl, refl))
      | inr room ↦ rw room (v, tt, inr (ltb_false→le target (tokens + m) room))
    ]

push_block-IsCurrent :
    (target : ℕ) (kept : List Block) (tokens : ℕ) (b : Block)
    → IsCurrent target (texts kept) tokens
    → IsSolid b.1
    → tokens + estimate_tokens b.1 ≤ target
    → IsCurrent target (texts (kept ++ b ∷ [])) (tokens + estimate_tokens b.1)
push_block-IsCurrent target kept tokens b v solid room =
    rw map-append (push-IsCurrent target (texts kept) tokens b.1 v solid room)

emit_push-Fits :
    (source : Text) (target n : ℕ) (kept : List Block) (tokens : ℕ) (b : Block)
    → 1 ≤ target
    → Fits (5 * target) b.1
    → IsCurrent target (texts kept) tokens
    → ((kept ≡ []) × (tokens ≡ 0)) ⊎ (tokens + estimate_tokens b.1 ≤ target)
    → All (ChunkFits target) (chunk_texts (emit source n (kept ++ b ∷ [])))
emit_push-Fits source target n kept tokens b t f v (inl (empty, _)) =
    rw empty (emit-single-Fits source target n b t f)
emit_push-Fits source target n kept tokens b t f v (inr room) =
    emit-Fits source target n (kept ++ b ∷ []) (tokens + estimate_tokens b.1)
      (push_block-IsCurrent target kept tokens b v f.0 room)

chunk_texts-append-Fits :
    (target : ℕ) (cs ds : List Chunk)
    → All (ChunkFits target) (chunk_texts cs)
    → All (ChunkFits target) (chunk_texts ds)
    → All (ChunkFits target) (chunk_texts (cs ++ ds))
chunk_texts-append-Fits target cs ds h k = rw map-append (All-append _ (chunk_texts cs) _ h k)

chunks_from-Fits :
    (source : Text) (target n : ℕ) (current : List Block) (tokens : ℕ) (bs : List Block)
    → 1 ≤ target
    → IsCurrent target (texts current) tokens
    → All (Fits (5 * target)) (texts bs)
    → All (ChunkFits target) (chunk_texts (chunks_from source target n current tokens bs))
unfolding chunks_from
chunks_from-Fits source target n current tokens [] t v fs =
    emit-Fits source target n current tokens v
chunks_from-Fits source target n current tokens (b ∷ bs) t v fs =
    let m = estimate_tokens b.1 in
    let r = end_chunk source target m n current tokens in
    let (kept, done, room) = end_chunk-IsCurrent source target m n current tokens v in
    elim (Bool-cases (leb target (r.3 + m))) [
      | inl full ↦ rw full (
          chunk_texts-append-Fits target r.0 _ done (
            chunk_texts-append-Fits target (emit source r.1 (r.2 ++ b ∷ [])) _
              (emit_push-Fits source target r.1 r.2 r.3 b t fs.0 kept room)
              (chunks_from-Fits source target (r.1 + 1) [] 0 bs t (IsCurrent-nil target) fs.1)))
      | inr below ↦ rw below (
          chunk_texts-append-Fits target r.0 _ done (
            chunks_from-Fits source target r.1 (r.2 ++ b ∷ []) (r.3 + m) bs t
              (push_block-IsCurrent target r.2 r.3 b kept fs.0.0 (ground arith)) fs.1))
    ]

pub chunk_document-texts :
    (text source : Text) (target : ℕ) {cs : List Chunk}
    → chunk_document text target source ≡ ok cs
    → (1 ≤ target) × All (ChunkFits target) (chunk_texts cs)
unfolding blocks
chunk_document-texts text source target h =
    let (positive, e) = chunk_document-eq-ok text source target h in
    (
      positive,
      rw (← e) (
          chunks_from-Fits source target 0 [] 0 (pieces_of target (blocks text)) positive
            (IsCurrent-nil target)
            (pieces_of-Fits target (blocks text) positive
              (blocks_from-IsSolid none [] (splitlines text) tt))),
    )
