-- ===== src/Extraction/Chunker/Bounds.antt =====
-- How long pieces and chunks can be.
use ai_internship_demo_task.Prelude.{
  ℕ, zero, suc, ◌+◌, ◌*◌, ◌≤◌, ◌<◌, false, List, [], ◌∷◌, ◌++◌, ◌≡◌, refl, arith, Bool-cases, inl,
  inr, ltb, leb, All, All-append, All-imp, ltb_false→le, leb→le, length, length-take-le, drop,
}
use ai_internship_demo_task.Prelude.Text.{Text, is_empty, join, length-join, total_length}
use ai_internship_demo_task.Extraction.Chunker.{
  flush_piece, sentences, space, slices, end_piece, split_from, split_oversized, estimate_tokens,
}

-- The estimate is a quarter of the length, rounded up.
pub estimate_tokens_bounds :
    (s : Text) → (length s ≤ 4 * estimate_tokens s) × (4 * estimate_tokens s ≤ length s + 3)
unfolding estimate_tokens
estimate_tokens_bounds [] = (omega arith, omega arith)
estimate_tokens_bounds (c ∷ s) = (omega arith, omega arith)

-- A text that is not empty and whose length is below the bound.
abbrev pub Fits : ℕ → Text → Type 0
Fits bound s = (1 ≤ length s) × (length s < bound)

-- The tokens of some sentences, each by itself.
pub weight : List Text → ℕ
weight [] = 0
weight (s ∷ ss) = estimate_tokens s + weight ss

pub weight-append : (ss ts : List Text) → weight (ss ++ ts) ≡ weight ss + weight ts
unfolding weight
weight-append [] ts = omega arith
weight-append (s ∷ ss) ts = omega (arith, weight-append ss ts)

-- A list of texts that are not empty has at most as many as its weight, and four characters to a token.
pub weight_bounds :
    (ss : List Text)
    → All (λ s. 1 ≤ length s) ss
    → (length ss ≤ weight ss) × (total_length ss ≤ 4 * weight ss)
unfolding weight
weight_bounds [] h = (omega arith, omega arith)
weight_bounds (s ∷ ss) h = omega (arith, weight_bounds ss h.1, estimate_tokens_bounds s)

-- A join of texts of `w` tokens in all is shorter than `(4 + k) * w`, with `k` the separator's length.
pub join_bound :
    (sep p : Text) (ps : List Text)
    → All (λ s. 1 ≤ length s) (p ∷ ps)
    → (1 ≤ length (join sep (p ∷ ps)))
      × (length (join sep (p ∷ ps)) + length sep ≤ (4 + length sep) * weight (p ∷ ps))
join_bound sep p ps h =
    let first = h.0 in
    let e = length-join sep p ps in let b = weight_bounds (p ∷ ps) h in (omega arith, grind arith)

slices-Fits : (fuel width : ℕ) (s : Text) → 1 ≤ width → All (Fits (width + 1)) (slices fuel width s)
unfolding slices
slices-Fits zero width s w = tt
slices-Fits (suc fuel) width [] w = tt
slices-Fits (suc fuel) zero (c ∷ s) w = absurd (omega arith)
slices-Fits (suc fuel) (suc width) (c ∷ s) w =
    (omega (arith, length-take-le width s), slices-Fits fuel (suc width) (drop width s) w)

-- The current sentences of `_split_oversized`: none is empty, and their tokens are counted and fit.
pub record IsCurrent (target : ℕ) (current : List Text) (tokens : ℕ) : Type 0 where
  pub solid : All (λ s. 1 ≤ length s) current
  pub counted : weight current ≡ tokens
  pub fits : tokens ≤ target

flush_piece-Fits :
    (target : ℕ) (current : List Text) (tokens : ℕ)
    → IsCurrent target current tokens
    → All (Fits (5 * target)) (flush_piece current)
unfolding flush_piece
flush_piece-Fits target [] tokens v = tt
flush_piece-Fits target (p ∷ ps) tokens v = (omega (arith, join_bound space p ps v.solid), tt)

pub IsCurrent-nil : (target : ℕ) → IsCurrent target [] 0
unfolding weight
IsCurrent-nil target = record { solid = tt; counted = refl; fits = omega arith }

pub tokens-nil : {target tokens : ℕ} → IsCurrent target [] tokens → tokens ≡ 0
unfolding weight
tokens-nil v = omega arith

-- After the test there is room for `n` tokens, if they fit at all.
end_piece-IsCurrent :
    (target n : ℕ) (current : List Text) (tokens : ℕ)
    → IsCurrent target current tokens
    → IsCurrent target (end_piece target n current tokens).1 (end_piece target n current tokens).2
      × All (Fits (5 * target)) (end_piece target n current tokens).0
      × (n ≤ target → (end_piece target n current tokens).2 + n ≤ target)
unfolding end_piece
end_piece-IsCurrent target n [] tokens v = (v, tt, λ h. omega (arith, tokens-nil v))
end_piece-IsCurrent target n (p ∷ ps) tokens v = elim (Bool-cases (ltb target (tokens + n))) [
  | inl full ↦
      rw full (IsCurrent-nil target, flush_piece-Fits target (p ∷ ps) tokens v, λ h. omega arith)
  | inr room ↦ rw room (v, tt, λ h. ground arith)
]

pub push-IsCurrent :
    (target : ℕ) (current : List Text) (tokens : ℕ) (s : Text)
    → IsCurrent target current tokens
    → 1 ≤ length s
    → tokens + estimate_tokens s ≤ target
    → IsCurrent target (current ++ s ∷ []) (tokens + estimate_tokens s)
unfolding weight
push-IsCurrent target current tokens s v solid room = record {
  solid = All-append _ current (s ∷ []) v.solid (solid, tt);
  counted = omega (arith, weight-append current (s ∷ []), v.counted);
  fits = room;
}

pub solid_of : (s : Text) → is_empty s ≡ false → 1 ≤ length s
solid_of [] e = cc
solid_of (c ∷ s) e = omega arith

Fits-weaken : (m n : ℕ) → m ≤ n → (ss : List Text) → All (Fits m) ss → All (Fits n) ss
Fits-weaken m n h ss = All-imp (λ s f. (f.0, omega arith)) ss

split_from-Fits :
    (target : ℕ) (current : List Text) (tokens : ℕ) (ss : List Text)
    → 1 ≤ target
    → IsCurrent target current tokens
    → All (Fits (5 * target)) (split_from target current tokens ss)
unfolding split_from
split_from-Fits target current tokens [] t v = flush_piece-Fits target current tokens v
split_from-Fits target current tokens (s ∷ ss) t v = elim (Bool-cases (is_empty s)) [
  | inl e ↦ rw e (split_from-Fits target current tokens ss t v)
  | inr e ↦
      let n = estimate_tokens s in
      let r = end_piece target n current tokens in
      let (kept, done, room) = end_piece-IsCurrent target n current tokens v in
      elim (Bool-cases (ltb target n)) [
        | inl long ↦
            rw (e, long)
              (All-append _ r.0 _ done (
                All-append _ (slices (length s) (target * 4) s) _
                  (Fits-weaken (target * 4 + 1) (5 * target) (omega arith) _
                    (slices-Fits (length s) (target * 4) s (omega arith)))
                  (split_from-Fits target r.1 r.2 ss t kept)))
        | inr short ↦
            let fits = room (ltb_false→le target n short) in
            rw (e, short)
              (All-append _ r.0 _ done (
                split_from-Fits target (r.1 ++ s ∷ []) (r.2 + n) ss t
                  (push-IsCurrent target r.1 r.2 s kept (solid_of s e) fits)))
      ]
]

-- Every piece of a paragraph is not empty and shorter than five characters to a token of the target.
pub split_oversized-Fits :
    (target : ℕ) (text : Text)
    → 1 ≤ target
    → 1 ≤ length text
    → All (Fits (5 * target)) (split_oversized text target)
unfolding split_oversized
split_oversized-Fits target text t solid = elim (Bool-cases (leb (estimate_tokens text) target)) [
  | inl fits ↦ rw fits (
    (solid, omega (arith, estimate_tokens_bounds text, leb→le (estimate_tokens text) target fits)),
    tt,
  )
  | inr over ↦ rw over (split_from-Fits target [] 0 (sentences text) t (IsCurrent-nil target))
]
