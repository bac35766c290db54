-- ===== src/Sessions/Queue.antt =====
-- codebridge/sessions/queue.py: the records of a job, and its future.
pub mod Worker
pub mod Manager
use pycodebridge.Base.{ℕ, Bool, true, false, ◌++◌}
use pycodebridge.Base.Text.{Text, str}
use pycodebridge.Base.Decimal.{show}

-- An `asyncio.Future`. Its holder may cancel it (`abandoned`); an exception is its text.
pub data Future : Type 0 where
  unset : Future
  result : Future
  failed : Text → Future
  abandoned : Future

abbrev pub done : Future → Bool
done unset = false
done result = true
done (failed e) = true
done abandoned = true

-- `_JobRequest`; times are those of the event loop, in ticks, and 0 is the source's 0.0.
pub record JobRequest (Job : Type 0) : Type 0 where
  pub job_id : Text
  pub session : Text
  pub job : Job
  pub future : Future
  pub queued_at : ℕ
  pub started_at : ℕ
  pub ended_at : ℕ
  pub cancelled : Bool

pub record JobRecord (Job : Type 0) : Type 0 where
  pub job : Job
  pub session : Text
  pub label : Text

pub data Status : Type 0 where
  running queued : Status

pub record JobStatus : Type 0 where
  pub job_id : Text
  pub session : Text
  pub status : Status
  pub position : ℕ
  pub queued_at : ℕ
  pub started_at : ℕ
  pub ended_at : ℕ

-- f"job-{n}"
unfoldable pub job_name : ℕ → Text
job_name n = str "job-" ++ show n
