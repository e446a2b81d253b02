-- ===== src/Jobs/Worker/Enqueued.antt =====
-- The jobs that handlers enqueue, and weights of jobs.
use ai_internship_demo_task.Prelude.{
  ℕ, ◌+◌, ◌-◌, Option, none, some, List, [], ◌∷◌, ◌++◌, ◌≡◌, refl, sym, ◌∙◌, arith, length,
  append-nil, append_assoc,
}
use ai_internship_demo_task.Jobs.Queue.{Job, QueueMessage, Queue, enqueue}
use ai_internship_demo_task.Jobs.Worker.{Worker, handler_for, enqueue_all, TaskHandler}

-- How often the worker can still take a job up.
unfoldable pub tries_left : Worker → Job → ℕ
tries_left w job = 1 + (w.limit - job.attempts)

-- A weight of jobs, summed up.
unfoldable pub total_jobs : (Job → ℕ) → List Job → ℕ
total_jobs weight [] = 0
total_jobs weight (job ∷ jobs) = weight job + total_jobs weight jobs

unfoldable pub total : (Job → ℕ) → List QueueMessage → ℕ
total weight [] = 0
total weight (m ∷ ms) = weight m.job + total weight ms

-- The messages of jobs that are enqueued, from the next receipt on.
unfoldable pub messages : List Job → ℕ → List QueueMessage
messages [] n = []
messages (job ∷ jobs) n = record { receipt = n; job = job } ∷ messages jobs (n + 1)

unfoldable pub jobs_of : Option TaskHandler → QueueMessage → List Job
jobs_of none m = []
jobs_of (some h) m = (h m.receipt m.job.payload).1

-- The jobs that the handler of a message enqueues.
unfoldable pub enqueued : Worker → QueueMessage → List Job
unfolding jobs_of
enqueued w m = jobs_of (handler_for w.registry m.job.job_type) m

unfoldable pub next_attempt : Job → Job
next_attempt job = record job { attempts = job.attempts + 1 }

unfoldable pub again : QueueMessage → ℕ → QueueMessage
again m receipt = record { receipt = receipt; job = record m.job { attempts = m.job.attempts + 1 } }

pub total-append :
    (weight : Job → ℕ) (ms ns : List QueueMessage)
    → total weight (ms ++ ns) ≡ total weight ms + total weight ns
unfolding total
total-append weight [] ns = omega arith
total-append weight (m ∷ ms) ns = omega (arith, total-append weight ms ns)

pub total-messages :
    (weight : Job → ℕ) (jobs : List Job) (n : ℕ)
    → total weight (messages jobs n) ≡ total_jobs weight jobs
unfolding total messages total_jobs
total-messages weight [] n = refl
total-messages weight (job ∷ jobs) n = omega (arith, total-messages weight jobs (n + 1))

pub length-messages : (jobs : List Job) (n : ℕ) → length (messages jobs n) ≡ length jobs
unfolding messages
length-messages [] n = refl
length-messages (job ∷ jobs) n = omega (arith, length-messages jobs (n + 1))

-- The queue after jobs were enqueued.
abbrev pub grown : List Job → Queue → Queue
grown jobs q = record q {
  waiting = q.waiting ++ messages jobs q.receipts;
  receipts = q.receipts + length jobs;
}

resized :
    (q : Queue) (ms ns : List QueueMessage) (k n : ℕ)
    → ms ≡ ns
    → k ≡ n
    → ◌≡◌ {A = Queue}
        (record q { waiting = ms; receipts = k })
        (record q { waiting = ns; receipts = n })
resized q ms ns k n e f = rw (e, f) refl

pub enqueue_all_lem : (jobs : List Job) (q : Queue) → enqueue_all jobs q ≡ grown jobs q
unfolding enqueue_all enqueue messages
enqueue_all_lem [] q = resized q _ _ _ _ (sym (append-nil q.waiting)) (omega arith)
enqueue_all_lem (job ∷ jobs) q =
    enqueue_all_lem jobs (enqueue job q).1
    ∙ resized q _ _ _ _ (append_assoc q.waiting _ _) (omega arith)
