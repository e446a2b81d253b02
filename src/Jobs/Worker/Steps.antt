-- ===== src/Jobs/Worker/Steps.antt =====
-- What one round of the worker does to the queue.
use ai_internship_demo_task.Prelude.{
  ℕ, ◌+◌, ◌<◌, Option, none, some, List, [], ◌∷◌, ◌++◌, ◌≡◌, ◌⊎◌, refl, sym, subst, arith, String,
  length, length-append, ltb, leb, Bool-cases, inl, inr,
}
use ai_internship_demo_task.Jobs.Queue.{
  Job, QueueMessage, Reason, max_retries, unknown_job_type, Queue, enqueue, ack, sleep, retry,
  dead_letter,
}
use ai_internship_demo_task.Jobs.Worker.{
  Worker, WorkerResult, nothing, delay_after, handle_failure, handler_for, process_outcome,
  process_with, process, enqueue_all, TaskHandler,
}
use ai_internship_demo_task.Jobs.Worker.Enqueued.{
  total_jobs, total, messages, jobs_of, enqueued, next_attempt, again, total-append, total-messages,
  grown, enqueue_all_lem,
}

-- What a round leaves to wait: what waited and the jobs that its handler enqueued, and behind them the
-- message again if it was put back, which it is only while its attempts are below the limit.
abbrev pub Leaves : Worker → QueueMessage → List Job → Queue → WorkerResult × Queue → Type 0
Leaves w m jobs q r =
    ((r.0.retried ≡ 0) × (r.1.waiting ≡ (grown jobs q).waiting))
    ⊎ ((r.0.retried ≡ 1)
        × (m.job.attempts < w.limit)
        × (r.1.waiting ≡ (grown jobs q).waiting ++ again m (q.receipts + length jobs) ∷ []))

-- What every way to deal with a message keeps to: the counts of one round, from the queue without the
-- message to the queue after it, with the jobs that its handler enqueued.
pub record Handles (w : Worker) (m : QueueMessage) (jobs : List Job) (q : Queue)
    (r : WorkerResult × Queue) : Type 0 where
  pub one : r.0.processed + r.0.retried + r.0.dead_lettered ≡ 1
  pub acked : r.1.acked ≡ q.acked ++ m ∷ []
  pub buried : length r.1.dead_letters ≡ length q.dead_letters + r.0.dead_lettered
  pub given : r.1.receipts ≡ q.receipts + length jobs + r.0.retried
  pub left : Leaves w m jobs q r

-- What is left to wait weighs less if the jobs that were enqueued weigh less than the message, also
-- with its next attempt, where there is one.
pub total-Leaves :
    (weight : Job → ℕ) (w : Worker) (m : QueueMessage) (jobs : List Job) (q : Queue)
    (r : WorkerResult × Queue)
    → total_jobs weight jobs < weight m.job
    → (m.job.attempts < w.limit
        → total_jobs weight jobs + weight (next_attempt m.job) < weight m.job)
    → Leaves w m jobs q r
    → total weight r.1.waiting < weight m.job + total weight q.waiting
unfolding total next_attempt again
total-Leaves weight w m jobs q r done more (inl (kept, waits)) = rw waits (
    omega (
      arith,
      done,
      total-append weight q.waiting (messages jobs q.receipts),
      total-messages weight jobs q.receipts,
    ))
total-Leaves weight w m jobs q r done more (inr (kept, low, waits)) = rw waits (
    omega (
      arith,
      more low,
      total-append weight (grown jobs q).waiting (again m (q.receipts + length jobs) ∷ []),
      total-append weight q.waiting (messages jobs q.receipts),
      total-messages weight jobs q.receipts,
    ))

dead_letter-Handles :
    (w : Worker) (m : QueueMessage) (reason : Reason) (jobs : List Job) (q : Queue)
    → Handles w m jobs q
        (record nothing { dead_lettered = 1 }, (dead_letter m reason (grown jobs q)).1)
unfolding dead_letter ack
dead_letter-Handles w m reason jobs q = record {
  one = refl;
  acked = refl;
  buried = omega (arith, length-append q.dead_letters ((m, reason) ∷ []));
  given = omega arith;
  left = inl (refl, refl);
}

ack-Handles :
    (w : Worker) (m : QueueMessage) (jobs : List Job) (q : Queue)
    → Handles w m jobs q (record nothing { processed = 1 }, ack m (grown jobs q))
unfolding ack
ack-Handles w m jobs q = record {
  one = refl;
  acked = refl;
  buried = omega arith;
  given = omega arith;
  left = inl (refl, refl);
}

pub retry_lem :
    (m : QueueMessage) (delay : ℕ) (q : Queue)
    → ((retry m delay q).1.waiting ≡ q.waiting ++ again m q.receipts ∷ [])
      × ((retry m delay q).1.acked ≡ q.acked ++ m ∷ [])
      × ((retry m delay q).1.dead_letters ≡ q.dead_letters)
      × ((retry m delay q).1.receipts ≡ q.receipts + 1)
unfolding retry enqueue ack sleep again
retry_lem m delay q = elim (Bool-cases (ltb 0 delay)) [
  | inl e ↦ rw e (refl, refl, refl, refl)
  | inr e ↦ rw e (refl, refl, refl, refl)
]

retry-Handles :
    (w : Worker) (m : QueueMessage) (delay : ℕ) (jobs : List Job) (q : Queue)
    → m.job.attempts < w.limit
    → Handles w m jobs q (record nothing { retried = 1 }, (retry m delay (grown jobs q)).1)
retry-Handles w m delay jobs q h =
    let (waits, acks, dead, receipts) = retry_lem m delay (grown jobs q) in
    record {
      one = refl;
      acked = acks;
      buried = rw dead (omega arith);
      given = receipts;
      left = inr (refl, h, waits);
    }

handle_failure-Handles :
    (w : Worker) (m : QueueMessage) (name : String) (jobs : List Job) (q : Queue)
    → Handles w m jobs q (handle_failure w m name (grown jobs q))
unfolding handle_failure
handle_failure-Handles w m name jobs q = elim (Bool-cases (leb w.limit m.job.attempts)) [
  | inl last ↦ rw last (dead_letter-Handles w m (max_retries name) jobs q)
  | inr more ↦
      rw more (retry-Handles w m (delay_after w m.job.attempts) jobs q (ground (arith, more)))
]

process_outcome-Handles :
    (w : Worker) (m : QueueMessage) (outcome : Option String) (jobs : List Job) (q : Queue)
    → Handles w m jobs q (process_outcome w m outcome (grown jobs q))
unfolding process_outcome
process_outcome-Handles w m none jobs q = ack-Handles w m jobs q
process_outcome-Handles w m (some name) jobs q = handle_failure-Handles w m name jobs q

process_with-Handles :
    (w : Worker) (m : QueueMessage) (h : Option TaskHandler) (q : Queue)
    → Handles w m (jobs_of h m) q (process_with w m h q)
unfolding process_with jobs_of enqueue_all
process_with-Handles w m none q =
    subst
      (λ (p : Queue).
        Handles w m [] q
          (record nothing { dead_lettered = 1 }, (dead_letter m unknown_job_type p).1))
      (sym (enqueue_all_lem [] q)) (dead_letter-Handles w m unknown_job_type [] q)
process_with-Handles w m (some h) q =
    let (outcome, jobs) = h m.receipt m.job.payload in
    rw (enqueue_all_lem jobs q) (process_outcome-Handles w m outcome jobs q)

-- Whatever its handler does, and whatever jobs it enqueues, a message that is taken up is acknowledged, in
-- one of three ways: processed, put back, or set aside as dead. What waits after it is what waited
-- before, the jobs that the handler enqueued, in order, and the message with one more attempt only if it was
-- put back, which is done only while its attempts are below the limit. Each of these jobs got a fresh
-- receipt.
pub process-Handles :
    (w : Worker) (m : QueueMessage) (q : Queue) → Handles w m (enqueued w m) q (process w m q)
unfolding process enqueued
process-Handles w m q = process_with-Handles w m (handler_for w.registry m.job.job_type) q
