-- ===== src/Jobs/Worker/Draining.antt =====
-- That the worker gets to the end of its queue.
use ai_internship_demo_task.Prelude.{
  ℕ, zero, suc, ◌+◌, ◌≤◌, ◌<◌, true, inl, inr, List, [], ◌∷◌, ◌≡◌, refl, ap, arith, length,
  length-append,
}
use ai_internship_demo_task.Jobs.Queue.{Job, QueueMessage, Queue, receive, receive_from}
use ai_internship_demo_task.Jobs.Worker.{
  Worker, WorkerResult, nothing, process, run_received, run_once, run_rounds,
}
use ai_internship_demo_task.Jobs.Worker.Enqueued.{
  tries_left, total, total_jobs, messages, length-messages, grown, again, enqueued, next_attempt,
}
use ai_internship_demo_task.Jobs.Worker.Steps.{total-Leaves, Leaves, process-Handles}

-- The counts of some rounds, from a queue to a queue. A receipt is given to each job that is enqueued and
-- to each message that is put back.
pub record Drains (q : Queue) (r : WorkerResult × Queue) : Type 0 where
  pub empty : r.1.waiting ≡ []
  pub settled :
      r.0.processed + r.0.retried + r.0.dead_lettered + q.receipts ≡ length q.waiting + r.1.receipts
  pub acked : length r.1.acked ≡ length q.acked + r.0.processed + r.0.retried + r.0.dead_lettered
  pub buried : length r.1.dead_letters ≡ length q.dead_letters + r.0.dead_lettered

run_once-idle :
    (w : Worker) (q : Queue) → q.waiting ≡ [] → run_once w q ≡ (record nothing { idle = true }, q)
unfolding run_once run_received receive receive_from
run_once-idle w q e = rw e

pub run_once-busy :
    (w : Worker) (q : Queue) (m : QueueMessage) (ms : List QueueMessage)
    → q.waiting ≡ m ∷ ms
    → run_once w q ≡ process w m (record q { waiting = ms })
unfolding run_once run_received receive receive_from
run_once-busy w q m ms e = rw e

idle_rounds : (w : Worker) (n : ℕ) (q : Queue) → q.waiting ≡ [] → Drains q (run_rounds w n q)
unfolding run_rounds
idle_rounds w zero q e = record {
  empty = e;
  settled = rw e (omega arith);
  acked = omega arith;
  buried = omega arith;
}
idle_rounds w (suc n) q e =
    let rest = idle_rounds w n q e in
    rw (run_once-idle w q e) (record {
      empty = rest.empty;
      settled = omega (arith, rest.settled);
      acked = omega (arith, rest.acked);
      buried = omega (arith, rest.buried);
    })

length-Leaves :
    (w : Worker) (m : QueueMessage) (jobs : List Job) (q : Queue) (r : WorkerResult × Queue)
    → Leaves w m jobs q r
    → length r.1.waiting ≡ length q.waiting + length jobs + r.0.retried
length-Leaves w m jobs q r (inl (kept, waits)) = rw waits (
    omega
      (arith, length-append q.waiting (messages jobs q.receipts), length-messages jobs q.receipts))
length-Leaves w m jobs q r (inr (kept, low, waits)) = rw waits (
    omega (
      arith,
      length-append (grown jobs q).waiting (again m (q.receipts + length jobs) ∷ []),
      length-append q.waiting (messages jobs q.receipts),
      length-messages jobs q.receipts,
    ))

-- The jobs that the handler of a message enqueues weigh less than the message, together with its next
-- attempt while there is one.
pub record IsDwindling (w : Worker) (weight : Job → ℕ) : Type 0 where
  pub done : (m : QueueMessage) → total_jobs weight (enqueued w m) < weight m.job
  pub more :
      (m : QueueMessage)
      → m.job.attempts < w.limit
      → total_jobs weight (enqueued w m) + weight (next_attempt m.job) < weight m.job

module _ (w : Worker) (weight : Job → ℕ) (dwindles : IsDwindling w weight) where
  run_rounds-Drains-cases :
      (n : ℕ) (q : Queue) (waiting : List QueueMessage)
      → q.waiting ≡ waiting
      → total weight waiting ≤ n
      → Drains q (run_rounds w n q)
  unfolding run_rounds total
  run_rounds-Drains-cases n q [] e h = idle_rounds w n q e
  run_rounds-Drains-cases zero q (m ∷ ms) e h = absurd (omega (arith, dwindles.done m))
  run_rounds-Drains-cases (suc n) q (m ∷ ms) e h =
      let q0 : Queue = record q { waiting = ms } in
      let jobs = enqueued w m in
      let step = process-Handles w m q0 in
      let q1 = (process w m q0).1 in
      let less =
        total-Leaves weight w m jobs q0 (process w m q0) (dwindles.done m) (dwindles.more m)
          step.left in
      let rest = run_rounds-Drains-cases n q1 q1.waiting refl (omega (arith, less)) in
      rw (run_once-busy w q m ms e) (record {
        empty = rest.empty;
        settled = omega (
          arith,
          step.one,
          step.given,
          length-Leaves w m jobs q0 (process w m q0) step.left,
          rest.settled,
          ap (λ (l : List QueueMessage). length l) e,
        );
        acked = omega (
          arith,
          step.one,
          ap (λ (l : List QueueMessage). length l) step.acked,
          length-append q.acked (m ∷ []),
          rest.acked,
        );
        buried = omega (arith, step.buried, rest.buried);
      })

  -- The worker comes to the end of its queue, if there is a weight of jobs such that the jobs that the handler
  -- of a message enqueues weigh less than the message, together with its next attempt while there is one: as
  -- many rounds as the jobs that wait weigh are enough. Each message that waited or was put into the queue
  -- since was then processed, put back or set aside as dead, once, and is acknowledged.
  pub run_rounds-Drains :
      (n : ℕ) (q : Queue) → total weight q.waiting ≤ n → Drains q (run_rounds w n q)
  run_rounds-Drains n q h = run_rounds-Drains-cases n q q.waiting refl h

-- Handlers that enqueue nothing.
tries_left-IsDwindling :
    (w : Worker) → ((m : QueueMessage) → enqueued w m ≡ []) → IsDwindling w (tries_left w)
unfolding tries_left next_attempt total_jobs
tries_left-IsDwindling w quiet = record {
  done = λ m. rw (quiet m) (omega arith);
  more = λ m low. rw (quiet m) (omega arith);
}

-- Where no handler enqueues a job, as many rounds as there are tries left for the jobs that wait are enough
-- for the worker to come to the end of its queue.
run_rounds-Drains_quiet :
    (w : Worker) (n : ℕ) (q : Queue)
    → ((m : QueueMessage) → enqueued w m ≡ [])
    → total (tries_left w) q.waiting ≤ n
    → Drains q (run_rounds w n q)
run_rounds-Drains_quiet w n q quiet h =
    run_rounds-Drains w (tries_left w) (tries_left-IsDwindling w quiet) n q h
