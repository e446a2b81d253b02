-- ===== src/Extraction/Chunker/Pieces.antt =====
-- Cutting loses white space only: sentences, slices and pieces against the text that they come from.
use ai_internship_demo_task.Prelude.{
  ℕ, zero, suc, ◌+◌, ◌*◌, ◌≤◌, true, List, [], ◌∷◌, ◌++◌, ◌≡◌, refl, sym, ap, ◌∙◌, arith, length,
  append-nil, append_assoc, take, drop, take-append-drop, length-drop-le, ltb, leb, Bool-cases, inl,
  inr,
}
use ai_internship_demo_task.Prelude.Text.{
  Text, is_space, dense, dense-append, dense-join, concat, join, is_empty,
}
use ai_internship_demo_task.Extraction.Chunker.{
  Scan, plain, stopped, skipping, after, sentences, sentences_from, slices, flush_piece, split_from,
  split_oversized, end_piece, estimate_tokens, space,
}

-- All characters of some texts that are no white space, in order.
abbrev pub dense_all : List Text → Text
dense_all [] = []
dense_all (s ∷ ss) = dense s ++ dense_all ss

pub dense_all-append : (ss ts : List Text) → dense_all (ss ++ ts) ≡ dense_all ss ++ dense_all ts
dense_all-append [] ts = refl
dense_all-append (s ∷ ss) ts = simp (dense_all-append ss ts, append_assoc)

pub dense-concat : (ss : List Text) → dense (concat ss) ≡ dense_all ss
dense-concat [] = unfold dense in refl
dense-concat (s ∷ ss) = dense-append s (concat ss) ∙ ap (◌++◌ (dense s)) (dense-concat ss)

pub dense_all-join :
    (sep : Text) → dense sep ≡ [] → (ss : List Text) → dense (join sep ss) ≡ dense_all ss
dense_all-join sep blank ss = dense-join sep blank ss ∙ dense-concat ss

pub dense-nil : dense [] ≡ []
unfolding dense
dense-nil = refl

-- One more character at the end of the sentence that is read.
dense_push : (cur s : Text) (c : ℕ) → dense (cur ++ c ∷ []) ++ dense s ≡ dense cur ++ dense (c ∷ s)
dense_push cur s c =
    rw (dense-append cur (c ∷ []))
      (append_assoc (dense cur) _ _ ∙ ap (◌++◌ (dense cur)) (sym (dense-append (c ∷ []) s)))

dense_skip : (s : Text) (c : ℕ) → is_space c ≡ true → dense (c ∷ s) ≡ dense s
unfolding dense
dense_skip s c h = rw h

sentences_from-dense :
    (scan : Scan) (cur s : Text) → dense_all (sentences_from scan cur s) ≡ dense cur ++ dense s
unfolding sentences_from
sentences_from-dense plain cur [] = rw dense-nil
sentences_from-dense stopped cur [] = rw dense-nil
sentences_from-dense skipping cur [] = rw dense-nil
sentences_from-dense plain cur (c ∷ s) =
    sentences_from-dense (after c) (cur ++ c ∷ []) s ∙ dense_push cur s c
sentences_from-dense stopped cur (c ∷ s) = elim (Bool-cases (is_space c)) [
  | inl e ↦
      rw (e, dense_skip s c e)
        (ap (◌++◌ (dense cur))
          (sentences_from-dense skipping [] s ∙ ap (λ (t : Text). t ++ dense s) dense-nil))
  | inr e ↦ rw e (sentences_from-dense (after c) (cur ++ c ∷ []) s ∙ dense_push cur s c)
]
sentences_from-dense skipping cur (c ∷ s) = elim (Bool-cases (is_space c)) [
  | inl e ↦ rw (e, dense_skip s c e) (sentences_from-dense skipping cur s)
  | inr e ↦ rw e (sentences_from-dense (after c) (cur ++ c ∷ []) s ∙ dense_push cur s c)
]

pub concat-slices :
    (fuel width : ℕ) (s : Text) → 1 ≤ width → length s ≤ fuel → concat (slices fuel width s) ≡ s
unfolding slices
concat-slices zero width [] w f = refl
concat-slices zero width (c ∷ s) w f = absurd (omega arith)
concat-slices (suc fuel) width [] w f = refl
concat-slices (suc fuel) zero (c ∷ s) w f = absurd (omega arith)
concat-slices (suc fuel) (suc width) (c ∷ s) w f = ap (◌∷◌ c) (
    ap (◌++◌ (take width s))
      (concat-slices fuel (suc width) (drop width s) w (omega (arith, length-drop-le width s)))
    ∙ take-append-drop width s)

flush_piece-dense : (ps : List Text) → dense_all (flush_piece ps) ≡ dense_all ps
unfolding flush_piece
flush_piece-dense [] = refl
flush_piece-dense (p ∷ ps) =
    append-nil _ ∙ dense_all-join space (unfold dense is_space in refl) (p ∷ ps)

pub dense_empty : (s : Text) → is_empty s ≡ true → dense s ≡ []
unfolding dense
dense_empty [] e = refl
dense_empty (c ∷ s) e = cc

-- `end_piece` moves text from the current sentences to the pieces.
end_piece-dense :
    (target n : ℕ) (current : List Text) (tokens : ℕ)
    → dense_all (end_piece target n current tokens).0
        ++ dense_all (end_piece target n current tokens).1
      ≡ dense_all current
unfolding end_piece
end_piece-dense target n [] tokens = refl
end_piece-dense target n (p ∷ ps) tokens = elim (Bool-cases (ltb target (tokens + n))) [
  | inl e ↦ rw e (append-nil _ ∙ flush_piece-dense (p ∷ ps))
  | inr e ↦ rw e
]

-- A sentence that is too long by itself finds no current sentences.
end_piece_long :
    (target n : ℕ) (current : List Text) (tokens : ℕ)
    → ltb target n ≡ true
    → (end_piece target n current tokens).1 ≡ []
unfolding end_piece
end_piece_long target n [] tokens long = refl
end_piece_long target n (p ∷ ps) tokens long = ground arith

slices-dense :
    (target : ℕ) (s : Text) → 1 ≤ target → dense_all (slices (length s) (target * 4) s) ≡ dense s
slices-dense target s t =
    sym (dense-concat _)
    ∙ ap dense (concat-slices (length s) (target * 4) s (omega arith) (omega arith))

split_from-dense :
    (target : ℕ) (current : List Text) (tokens : ℕ) (ss : List Text)
    → 1 ≤ target
    → dense_all (split_from target current tokens ss) ≡ dense_all current ++ dense_all ss
unfolding split_from
split_from-dense target current tokens [] t = flush_piece-dense current ∙ sym (append-nil _)
split_from-dense target current tokens (s ∷ ss) t = elim (Bool-cases (is_empty s)) [
  | inl e ↦ rw (e, dense_empty s e) (split_from-dense target current tokens ss t)
  | inr e ↦
      let r = end_piece target (estimate_tokens s) current tokens in
      elim (Bool-cases (ltb target (estimate_tokens s))) [
        | inl long ↦
            let none_left = end_piece_long target (estimate_tokens s) current tokens long in
            rw (e, long, none_left)
              (simp (dense_all-append, split_from-dense target [] r.2 ss t, slices-dense target s t)
                (rw (← end_piece-dense target (estimate_tokens s) current tokens, none_left)
                  (simp append_assoc)))
        | inr short ↦
            rw (e, short)
              (simp
                (
                  dense_all-append,
                  split_from-dense target (r.1 ++ s ∷ []) (r.2 + estimate_tokens s) ss t,
                )
                (rw (← end_piece-dense target (estimate_tokens s) current tokens)
                  (simp append_assoc)))
      ]
]

-- The pieces of a paragraph have its characters, in order, but for white space.
pub split_oversized-dense :
    (target : ℕ) (text : Text) → 1 ≤ target → dense_all (split_oversized text target) ≡ dense text
unfolding split_oversized sentences
split_oversized-dense target text t = elim (Bool-cases (leb (estimate_tokens text) target)) [
  | inl fits ↦ rw fits (append-nil _)
  | inr over ↦ rw over (
      split_from-dense target [] 0 (sentences_from plain [] text) t
      ∙ sentences_from-dense plain [] text
      ∙ ap (λ (u : Text). u ++ dense text) dense-nil)
]
