-- ===== src/Jobs/Queue.antt =====
-- `Job`, `QueueMessage` and `InMemoryJobQueue` of src/jobs/queue.py. A payload is a JSON dict. A
-- receipt is a fresh identifier: the number of receipts given before. Pauses are kept as a log.
use ai_internship_demo_task.Prelude.{
  ℕ, ◌+◌, Option, none, some, List, [], ◌∷◌, ◌++◌, String, ltb, if◌then◌else◌,
}
use ai_internship_demo_task.Prelude.Json.{Fields}

pub data JobType : Type 0 where
  discover_source fetch_url parse_document extract_entity resolve_entity fetch_github
        export_record :
      JobType

pub record Job : Type 0 where
  pub job_type : JobType
  pub payload : Fields
  pub job_id : String
  pub attempts : ℕ

pub record QueueMessage : Type 0 where
  pub receipt : ℕ
  pub job : Job

-- The two reasons that the worker gives, `unknown_job_type` and `max_retries:` with the exception's
-- name.
pub data Reason : Type 0 where
  unknown_job_type : Reason
  max_retries : String → Reason

pub record Queue : Type 0 where
  pub waiting : List QueueMessage
  pub dead_letters : List (QueueMessage × Reason)
  pub acked : List QueueMessage
  pub receipts : ℕ
  pub slept : List ℕ

abbrev pub empty : Queue
empty = record { waiting = []; dead_letters = []; acked = []; receipts = 0; slept = [] }

unfoldable pub enqueue : Job → Queue → ℕ × Queue
enqueue job q =
    let message : QueueMessage = record { receipt = q.receipts; job = job } in
    (q.receipts, record q { waiting = q.waiting ++ message ∷ []; receipts = q.receipts + 1 })

-- `receive` with a timeout: `none` where nothing waits in time.
unfoldable pub receive_from : Queue → List QueueMessage → Option QueueMessage × Queue
receive_from q [] = (none, q)
receive_from q (m ∷ ms) = (some m, record q { waiting = ms })

unfoldable pub receive : Queue → Option QueueMessage × Queue
receive q = receive_from q q.waiting

unfoldable pub ack : QueueMessage → Queue → Queue
ack message q = record q { acked = q.acked ++ message ∷ [] }

unfoldable pub sleep : ℕ → Queue → Queue
sleep delay q = if ltb 0 delay then record q { slept = q.slept ++ delay ∷ [] } else q

unfoldable pub retry : QueueMessage → ℕ → Queue → ℕ × Queue
retry message delay q =
    let job = record message.job { attempts = message.job.attempts + 1 } in
    let (receipt, q') = enqueue job (sleep delay q) in (receipt, ack message q')

unfoldable pub dead_letter : QueueMessage → Reason → Queue → ℕ × Queue
dead_letter message reason q = (
  message.receipt,
  ack message (record q { dead_letters = q.dead_letters ++ (message, reason) ∷ [] }),
)
