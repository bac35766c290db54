-- ===== src/Sessions/Queue/Manager.antt =====
-- `Manager` of codebridge/sessions/queue.py: one worker for each channel. Each method holds the
-- manager's lock, or touches no shared state outside it, and is one step here.
pub mod Ids
pub mod Rekey
pub mod Examples
use pycodebridge.Base.{
  ℕ, suc, ◌+◌, Bool, true, false, not, ◌&&◌, ◌||◌, List, [], ◌∷◌, ◌++◌, Option, none, some, keep,
  is_some, if◌then◌else◌,
}
use pycodebridge.Base.Text.{Text, is_empty, text_eq}
use pycodebridge.Base.Dict.{Dict, get, put, pop, has}
use pycodebridge.Sessions.Queue.{unset, JobRequest, JobRecord, JobStatus, job_name}
use pycodebridge.Sessions.Queue.Worker
use pycodebridge.Sessions.Queue.Worker.{Worker, Stage, stopped}

pub record Manager (Job : Type 0) : Type 0 where
  pub workers : Dict (Worker Job)
  pub counter : ℕ
  pub last_jobs : Dict (JobRecord Job)

-- `task.done()`
abbrev pub ended : Stage → Bool
ended stopped = true
ended _ = false

-- `if statuses: out[channel_id] = statuses`
abbrev with_statuses : Text → List JobStatus → Dict (List JobStatus) → Dict (List JobStatus)
with_statuses channel [] out = out
with_statuses channel (s ∷ ss) out = put channel (s ∷ ss) out

module _ {Job : Type 0} where
  -- `_prune_workers_locked`
  abbrev pub pruned : Dict (Worker Job) → Dict (Worker Job)
  pruned = keep (λ e. not (ended e.1.stage))

  pub init : Manager Job
  init = record { workers = []; counter = 0; last_jobs = [] }

  abbrev pub request : ℕ → Text → Job → ℕ → JobRequest Job
  request n session job now = record {
    job_id = job_name n;
    session = session;
    job = job;
    future = unset;
    queued_at = now;
    started_at = 0;
    ended_at = 0;
    cancelled = false;
  }

  -- The channel's worker, or a new one; a new one's store holds nothing that matters.
  abbrev pub worker_or_new : JobRequest Job → Option (Worker Job) → Worker Job
  worker_or_new req none = Worker.fresh (λ _. req)
  worker_or_new req (some w) = w

  -- The position, the job's id and its number; the future is that of the request of this number.
  pub enqueue : Manager Job → Text → Text → Job → ℕ → (ℕ × Text × ℕ) × Manager Job
  enqueue m channel session job now =
      let workers = pruned m.workers in
      let n = m.counter + 1 in
      let req = request n session job now in
      let (position, w) = Worker.enqueue (worker_or_new req (get channel workers)) n req in
      (
        (position, req.job_id, n),
        record {
          workers = put channel w workers;
          counter = n;
          last_jobs = put channel (record { job = job; session = session; label = [] }) m.last_jobs;
        },
      )

  abbrev statuses : Option (Worker Job) → List JobStatus
  statuses none = []
  statuses (some w) = Worker.snapshot w

  pub snapshot : Manager Job → Text → List JobStatus × Manager Job
  snapshot m channel =
      let workers = pruned m.workers in
      (statuses (get channel workers), record m { workers = workers })

  snapshots : List (Text × Worker Job) → Dict (List JobStatus) → Dict (List JobStatus)
  snapshots [] out = out
  snapshots ((channel, w) ∷ rest) out =
      snapshots rest (with_statuses channel (Worker.snapshot w) out)

  pub snapshot_all : Manager Job → Dict (List JobStatus) × Manager Job
  unfolding snapshots
  snapshot_all m =
      let workers = pruned m.workers in (snapshots workers [], record m { workers = workers })

  cancel_in : Manager Job → Text → Text → Option (Worker Job) → Bool × Manager Job
  cancel_in m channel job_id none = (false, m)
  cancel_in m channel job_id (some w) =
      let (found, w') = Worker.cancel w job_id in
      (found, record m { workers = put channel w' m.workers })

  pub cancel : Manager Job → Text → Text → Bool × Manager Job
  unfolding cancel_in
  cancel m channel job_id =
      let m' = record m { workers = pruned m.workers } in
      cancel_in m' channel job_id (get channel m'.workers)

  pub last_job : Manager Job → Text → Option (JobRecord Job)
  last_job m channel = get channel m.last_jobs

  -- The worker's half of `rekey_channel`: the two lookups come first.
  rekey_workers :
      Text → Text → Dict (Worker Job) → Option (Worker Job) → Bool → Bool × Dict (Worker Job)
  rekey_workers from to workers (some w) false = (true, pop from (put to w workers))
  rekey_workers from to workers _ _ = (false, workers)

  rekey_last :
      Text
      → Text
      → Dict (JobRecord Job)
      → Option (JobRecord Job)
      → Bool
      → Bool × Dict (JobRecord Job)
  rekey_last from to last none taken = (false, last)
  rekey_last from to last (some record_) taken =
      (true, pop from (if taken then last else put to record_ last))

  pub rekey_channel : Manager Job → Text → Text → Bool × Manager Job
  unfolding rekey_workers rekey_last
  rekey_channel m from to =
      let workers = pruned m.workers in
      let (moved, workers') = rekey_workers from to workers (get from workers) (has to workers) in
      let (moved', last) =
        rekey_last from to m.last_jobs (get from m.last_jobs) (has to m.last_jobs) in
      if is_empty from || is_empty to || text_eq from to
      then (false, m)
      else (moved || moved', record m { workers = workers'; last_jobs = last })
