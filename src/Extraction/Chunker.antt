-- ===== src/Extraction/Chunker.antt =====
-- src/extraction/chunker.py: cutting a document into chunks at headings and paragraphs. A text is a
-- list of code points. Each loop is a recursion over its list with the loop's variables as arguments.
pub mod Pieces
pub mod Conservation
pub mod Bounds
pub mod Sizes
pub mod Numbering
use ai_internship_demo_task.Prelude.{
  ℕ, zero, suc, ◌+◌, ◌*◌, ◌/◌, max, Bool, true, false, not, ◌&&◌, ◌||◌, Option, none, some, List,
  [], ◌∷◌, ◌++◌, map, length, take, drop, ltb, leb, ◌==◌, if◌then◌else◌,
}
use ai_internship_demo_task.Prelude.Result.{Result, ok, raise}
use ai_internship_demo_task.Prelude.Text.{
  Text, is_space, lstrip, strip, splitlines, join, decimal, is_empty,
}

pub record Chunk : Type 0 where
  pub chunk_id : Text
  pub source_record_id : Text
  pub section : Option Text
  pub text : Text
  pub token_estimate : ℕ
  pub sequence : ℕ

-- A paragraph, or a piece of one, under the heading that stands above it.
abbrev pub Block : Type 0
Block = Option Text × Text

pub data ChunkError : Type 0 where
  target_not_positive : ChunkError

-- `max(1, ceil(len(text) / 4)) if text else 0`
unfoldable pub estimate_tokens : Text → ℕ
estimate_tokens text = if is_empty text then 0 else max 1 ((length text + 3) / 4)

-- The rest of a line below the match of `^#{1,6}\s+`; `n` more `#` are allowed.
unfoldable pub heading_from : ℕ → Bool → Text → Option Text
heading_from n seen [] = none
heading_from zero seen (c ∷ s) = if seen && is_space c then some (lstrip s) else none
heading_from (suc n) seen (c ∷ s) =
    let deeper = heading_from n true s in
    if c == b'#' then deeper else if seen && is_space c then some (lstrip s) else none

unfoldable pub heading : Text → Option Text
unfolding heading_from
heading line = heading_from 6 false line

abbrev pub space : Text
space = b' ' ∷ []

abbrev pub blank_line : Text
blank_line = 10 ∷ 10 ∷ []

-- `value or None`
unfoldable pub non_empty : Text → Option Text
non_empty [] = none
non_empty (c ∷ s) = some (c ∷ s)

-- `if paragraph: blocks.append((section, " ".join(paragraph)))`
unfoldable pub flush : Option Text → List Text → List Block
flush section [] = []
flush section (p ∷ ps) = (section, join space (p ∷ ps)) ∷ []

-- The loop of `_blocks`.
unfoldable pub blocks_from : Option Text → List Text → List Text → List Block
blocks_from section paragraph [] = flush section paragraph
blocks_from section paragraph (line ∷ rest) =
    let stripped = strip line in
    let skip = flush section paragraph ++ blocks_from section [] rest in
    let more = blocks_from section (paragraph ++ stripped ∷ []) rest in
    if is_empty stripped then skip else elim (heading stripped) [
      | some title ↦ flush section paragraph ++ blocks_from (non_empty (strip title)) [] rest
      | none ↦ more
    ]

unfoldable pub blocks : Text → List Block
unfolding blocks_from
blocks text = blocks_from none [] (splitlines text)

-- Where the scan of `re.split(r"(?<=[.!?])\s+", text)` stands.
pub data Scan : Type 0 where
  plain stopped skipping : Scan

unfoldable pub is_stop : ℕ → Bool
is_stop c = c == b'.' || c == b'!' || c == b'?'

abbrev pub after : ℕ → Scan
after c = if is_stop c then stopped else plain

unfoldable pub sentences_from : Scan → Text → Text → List Text
sentences_from scan sentence [] = sentence ∷ []
sentences_from plain sentence (c ∷ s) = sentences_from (after c) (sentence ++ c ∷ []) s
sentences_from stopped sentence (c ∷ s) =
    let split = sentence ∷ sentences_from skipping [] s in
    let read = sentences_from (after c) (sentence ++ c ∷ []) s in if is_space c then split else read
sentences_from skipping sentence (c ∷ s) =
    let skip = sentences_from skipping sentence s in
    let read = sentences_from (after c) (sentence ++ c ∷ []) s in if is_space c then skip else read

unfoldable pub sentences : Text → List Text
unfolding sentences_from
sentences text = sentences_from plain [] text

-- `sentence[start : start + width]` for the steps of `range(0, len(sentence), width)`.
unfoldable pub slices : ℕ → ℕ → Text → List Text
slices zero width s = []
slices (suc fuel) width [] = []
slices (suc fuel) width (c ∷ s) = take width (c ∷ s) ∷ slices fuel width (drop width (c ∷ s))

-- `pieces.append(" ".join(current))`, if there is something.
unfoldable pub flush_piece : List Text → List Text
flush_piece [] = []
flush_piece (p ∷ ps) = join space (p ∷ ps) ∷ []

-- The first test of the loop of `_split_oversized`, before a sentence of `n` tokens: the piece that it
-- appends, the current sentences and their tokens.
unfoldable pub end_piece : ℕ → ℕ → List Text → ℕ → List Text × List Text × ℕ
end_piece target n current tokens =
    if not (is_empty current) && ltb target (tokens + n)
    then (flush_piece current, [], 0)
    else ([], current, tokens)

-- The loop of `_split_oversized`. A sentence that is too long by itself is sliced.
unfoldable pub split_from : ℕ → List Text → ℕ → List Text → List Text
split_from target current tokens [] = flush_piece current
split_from target current tokens (sentence ∷ rest) =
    let n = estimate_tokens sentence in
    let (pieces, current', tokens') = end_piece target n current tokens in
    let skip = split_from target current tokens rest in
    let sliced =
      slices (length sentence) (target * 4) sentence ++ split_from target current' tokens' rest in
    let kept = split_from target (current' ++ sentence ∷ []) (tokens' + n) rest in
    if is_empty sentence then skip else pieces ++ (if ltb target n then sliced else kept)

unfoldable pub split_oversized : Text → ℕ → List Text
unfolding split_from end_piece
split_oversized text target =
    if leb (estimate_tokens text) target then text ∷ [] else split_from target [] 0 (sentences text)

-- The first section of the current blocks that is not None. No section is an empty text.
unfoldable pub first_section : List Block → Option Text
first_section [] = none
first_section ((some s, _) ∷ bs) = some s
first_section ((none, _) ∷ bs) = first_section bs

-- `emit` on a non-empty list of blocks.
unfoldable pub make_chunk : Text → ℕ → List Block → Chunk
unfolding first_section
make_chunk source n bs =
    let text = join blank_line (map (λ (b : Block). b.1) bs) in
    record {
      chunk_id = source ++ (b':' ∷ decimal n);
      source_record_id = source;
      section = first_section bs;
      text = text;
      token_estimate = estimate_tokens text;
      sequence = n;
    }

-- What `emit` appends: nothing if there is no current block.
unfoldable pub emit : Text → ℕ → List Block → List Chunk
emit source n [] = []
emit source n (b ∷ bs) = make_chunk source n (b ∷ bs) ∷ []

-- The first test of the inner loop, before a piece of `m` tokens: what it emits, the next sequence
-- number, the current blocks and their tokens.
unfoldable pub end_chunk : Text → ℕ → ℕ → ℕ → List Block → ℕ → List Chunk × ℕ × List Block × ℕ
end_chunk source target m n current tokens =
    if not (is_empty current) && ltb target (tokens + m)
    then (emit source n current, n + 1, [], 0)
    else ([], n, current, tokens)

-- The two nested loops of `chunk_document`, over the pieces of all blocks in order: `n` is the
-- sequence number of the next chunk.
unfoldable pub chunks_from : Text → ℕ → ℕ → List Block → ℕ → List Block → List Chunk
chunks_from source target n current tokens [] = emit source n current
chunks_from source target n current tokens (piece ∷ rest) =
    let m = estimate_tokens piece.1 in
    let (emitted, n', kept, kept_tokens) = end_chunk source target m n current tokens in
    let current' = kept ++ piece ∷ [] in
    let tokens' = kept_tokens + m in
    let done = emit source n' current' ++ chunks_from source target (n' + 1) [] 0 rest in
    let more = chunks_from source target n' current' tokens' rest in
    emitted ++ (if leb target tokens' then done else more)

-- The pieces of the blocks, each under its block's section.
unfoldable pub pieces_of : ℕ → List Block → List Block
pieces_of target [] = []
pieces_of target ((section, text) ∷ bs) =
    map (λ (p : Text). (section, p)) (split_oversized text target) ++ pieces_of target bs

unfoldable pub chunk_document : Text → ℕ → Text → Result ChunkError (List Chunk)
chunk_document text target source =
    if ltb target 1
    then raise target_not_positive
    else ok (chunks_from source target 0 [] 0 (pieces_of target (blocks text)))
