-- ===== src/Crawlers/PapersWithCode/Batches.antt =====
-- The records that the batches of the archive cover.
use ai_internship_demo_task.Prelude.{
  ℕ, zero, suc, ◌+◌, ◌-◌, ◌≤◌, ◌<◌, min, List, [], ◌∷◌, ◌≡◌, refl, arith, ltb, Bool-cases, inl, inr,
}
use ai_internship_demo_task.Crawlers.PapersWithCode.{Batch, Adapter, batches_from, discover}

-- The batches lie end to end from one number to another, none of them empty or above the size.
abbrev pub Covers : ℕ → ℕ → ℕ → List Batch → Type 0
Covers size low high [] = low ≡ high
Covers size low high ((offset, n) ∷ bs) =
    (offset ≡ low) × (1 ≤ n) × (n ≤ size) × Covers size (low + n) high bs

-- Once at the end or beyond, there is no batch.
batches_from-done : (fuel size high low : ℕ) → high ≤ low → batches_from fuel size high low ≡ []
unfolding batches_from
batches_from-done zero size high low h = refl
batches_from-done (suc fuel) size high low h = ground (arith, h)

Covers-end : (size low high : ℕ) (bs : List Batch) → bs ≡ [] → low ≡ high → Covers size low high bs
Covers-end size low high bs e h = rw e h

batches_from-Covers :
    (fuel size high low : ℕ)
    → 1 ≤ size
    → low ≤ high
    → high ≤ low + fuel
    → Covers size low high (batches_from fuel size high low)
unfolding batches_from
batches_from-Covers zero size high low h k enough = omega (arith, k, enough)
batches_from-Covers (suc fuel) size high low h k enough = elim (Bool-cases (ltb low high)) [
  | inr e ↦ rw e (ground (arith, e, k))
  | inl e ↦
      let less : low < high = ground (arith, e) in
      rw e (elim (Bool-cases (ltb (low + size) high)) [
        | inl f ↦
            let inside : low + size < high = ground (arith, f) in
            let whole : min size (high - low) ≡ size = omega (arith, inside) in
            rw whole (
              refl,
              h,
              omega arith,
              batches_from-Covers fuel size high (low + size) h (omega (arith, inside))
                  (omega (arith, enough, h)),
            )
        | inr f ↦
            let outside : high ≤ low + size = ground (arith, f) in
            let rest : min size (high - low) ≡ high - low = omega (arith, outside, less) in
            rw rest (
              refl,
              omega (arith, less),
              omega (arith, outside),
              Covers-end size (low + (high - low)) high _
                  (batches_from-done fuel size high (low + size) outside) (omega (arith, less)),
            )
      ])
]

-- With a positive size, the batches that `discover` gives lie end to end and cover the records from 0 up to the
-- maximum, each once, and no batch is empty or above the size: the fuel is enough.
pub discover-Covers :
    (a : Adapter) → 1 ≤ a.batch_size → Covers a.batch_size 0 a.max_records (discover a)
unfolding discover
discover-Covers a h =
    batches_from-Covers a.max_records a.batch_size a.max_records 0 h (omega arith) (omega arith)
