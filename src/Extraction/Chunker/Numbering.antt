-- ===== src/Extraction/Chunker/Numbering.antt =====
-- The identities and estimates that `emit` writes into the chunks of a document.
use ai_internship_demo_task.Prelude.{
  ℕ, ◌+◌, ◌*◌, ◌≤◌, List, [], ◌∷◌, ◌++◌, ◌≡◌, refl, subst, arith, Bool-cases, inl, inr, ltb, leb,
  All, length,
}
use ai_internship_demo_task.Prelude.Result.{ok}
use ai_internship_demo_task.Prelude.Text.{Text, decimal}
use ai_internship_demo_task.Extraction.Chunker.{
  Block, Chunk, blocks, pieces_of, emit, end_chunk, make_chunk, chunks_from, chunk_document,
  estimate_tokens,
}
use ai_internship_demo_task.Extraction.Chunker.Bounds.{estimate_tokens_bounds}
use ai_internship_demo_task.Extraction.Chunker.Conservation.{chunk_texts, chunk_document-eq-ok}
use ai_internship_demo_task.Extraction.Chunker.Sizes.{ChunkFits, chunk_document-texts}

-- The chunks of the document `source` from number `n` on, each named by its number.
abbrev pub Numbered : Text → ℕ → List Chunk → Type 0
Numbered source n [] = Unit
Numbered source n (c ∷ cs) =
    (c.sequence ≡ n)
    × (c.chunk_id ≡ source ++ (b':' ∷ decimal n))
    × (c.source_record_id ≡ source)
    × (c.token_estimate ≡ estimate_tokens c.text)
    × Numbered source (n + 1) cs

Numbered-append :
    (source : Text) (n : ℕ) (cs ds : List Chunk)
    → Numbered source n cs
    → Numbered source (n + length cs) ds
    → Numbered source n (cs ++ ds)
Numbered-append source n [] ds h k = subst (λ (m : ℕ). Numbered source m ds) (omega arith) k
Numbered-append source n (c ∷ cs) ds h k = (
  h.0,
  h.1,
  h.2,
  h.3,
  Numbered-append source (n + 1) cs ds h.4
      (subst (λ (m : ℕ). Numbered source m ds) (omega arith) k),
)

emit-Numbered : (source : Text) (n : ℕ) (bs : List Block) → Numbered source n (emit source n bs)
unfolding emit make_chunk
emit-Numbered source n [] = tt
emit-Numbered source n (b ∷ bs) = (refl, refl, refl, refl, tt)

emit_push-length :
    (source : Text) (n : ℕ) (bs : List Block) (b : Block)
    → length (emit source n (bs ++ b ∷ [])) ≡ 1
unfolding emit
emit_push-length source n [] b = refl
emit_push-length source n (c ∷ cs) b = refl

end_chunk-Numbered :
    (source : Text) (target m n : ℕ) (current : List Block) (tokens : ℕ)
    → let r = end_chunk source target m n current tokens in
      Numbered source n r.0 × (r.1 ≡ n + length r.0)
unfolding end_chunk
end_chunk-Numbered source target m n [] tokens = (tt, omega arith)
end_chunk-Numbered source target m n (b ∷ bs) tokens = elim (Bool-cases (ltb target (tokens + m))) [
  | inl full ↦ rw full (emit-Numbered source n (b ∷ bs), unfold emit in omega arith)
  | inr room ↦ rw room (tt, omega arith)
]

chunks_from-Numbered :
    (source : Text) (target n : ℕ) (current : List Block) (tokens : ℕ) (bs : List Block)
    → Numbered source n (chunks_from source target n current tokens bs)
unfolding chunks_from
chunks_from-Numbered source target n current tokens [] = emit-Numbered source n current
chunks_from-Numbered source target n current tokens (b ∷ bs) =
    let m = estimate_tokens b.1 in
    let r = end_chunk source target m n current tokens in
    let (first, next) = end_chunk-Numbered source target m n current tokens in
    let at_next = λ (cs : List Chunk) (h : Numbered source r.1 cs).
      Numbered-append source n r.0 cs first (subst (λ (k : ℕ). Numbered source k cs) next h) in
    elim (Bool-cases (leb target (r.3 + m))) [
      | inl full ↦ rw full (
          at_next _ (
            Numbered-append source r.1 (emit source r.1 (r.2 ++ b ∷ [])) _
              (emit-Numbered source r.1 (r.2 ++ b ∷ []))
              (rw (emit_push-length source r.1 r.2 b)
                (chunks_from-Numbered source target (r.1 + 1) [] 0 bs))))
      | inr below ↦
          rw below (at_next _ (chunks_from-Numbered source target r.1 (r.2 ++ b ∷ []) (r.3 + m) bs))
    ]

-- The chunks of a document are numbered from 0 without a gap, each is named `source:number` after
-- its number, and carries the estimate of its own text.
pub chunk_document-Numbered :
    (text source : Text) (target : ℕ) {cs : List Chunk}
    → chunk_document text target source ≡ ok cs
    → Numbered source 0 cs
chunk_document-Numbered text source target h =
    rw (← (chunk_document-eq-ok text source target h).1)
      (chunks_from-Numbered source target 0 [] 0 (pieces_of target (blocks text)))

estimates_fit :
    (source : Text) (target n : ℕ) (cs : List Chunk)
    → Numbered source n cs
    → All (ChunkFits target) (chunk_texts cs)
    → All (λ (c : Chunk). (1 ≤ c.token_estimate) × (2 * c.token_estimate ≤ 3 * target)) cs
estimates_fit source target n [] h k = tt
estimates_fit source target n (c ∷ cs) h k = (
  omega (arith, h.3, estimate_tokens_bounds c.text, k.0),
  estimates_fit source target (n + 1) cs h.4 k.1,
)

-- Every chunk of a document holds something, and its estimate is at most half as much again as the
-- target: the separators between its pieces are not counted when they are gathered.
pub chunk_document_estimates :
    (text source : Text) (target : ℕ) {cs : List Chunk}
    → chunk_document text target source ≡ ok cs
    → All (λ (c : Chunk). (1 ≤ c.token_estimate) × (2 * c.token_estimate ≤ 3 * target)) cs
chunk_document_estimates text source target {cs} h =
    estimates_fit source target 0 cs (chunk_document-Numbered text source target h)
      (chunk_document-texts text source target h).1
