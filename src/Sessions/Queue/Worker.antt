-- ===== src/Sessions/Queue/Worker.antt =====
-- `_Worker` of codebridge/sessions/queue.py. Its queue, its pending jobs and its active job share
-- request objects; an object is named by the number in its job id, and `objects` is the store.
-- No critical section of the source suspends while it holds a lock, so each is one step here.
pub mod Entries
pub mod Order
pub mod Invariant
pub mod Steps
pub mod Safety
pub mod Snapshot
pub mod Drain
pub mod Examples
use pycodebridge.Base.{
  ℕ, zero, suc, ◌+◌, Bool, true, false, ◌&&◌, List, [], ◌∷◌, ◌++◌, Option, none, some, length, ◌==◌,
  if◌then◌else◌,
}
use pycodebridge.Base.Text.{Text, str}
use pycodebridge.Base.Dict.{Dict, get, put, pop, values}
use pycodebridge.Sessions.Queue.{
  Future, result, failed, abandoned, done, JobRequest, Status, running, queued, JobStatus,
}

-- Where the task `run()` stands: in `queue.get()`, with a request in hand but before the lock,
-- in `await req.job()`, or ended.
pub data Stage : Type 0 where
  waiting : Stage
  holding : ℕ → Stage
  executing : ℕ → Stage
  stopped : Stage

-- `called` lists the requests whose `job()` was called, the first one first.
pub record Worker (Job : Type 0) : Type 0 where
  pub objects : ℕ → JobRequest Job
  pub queue : List ℕ
  pub pending : Dict ℕ
  pub active : Option ℕ
  pub stage : Stage
  pub called : List ℕ

-- How `await req.job()` ends: it returns, it raises an `Exception`, or the task is cancelled.
pub data Outcome : Type 0 where
  returned : Outcome
  raised : Text → Outcome
  killed : Outcome

abbrev none_active : Option ℕ → Bool
none_active none = true
none_active (some r) = false

abbrev is_nil {ℓ} : {A : Type ℓ} → List A → Bool
is_nil [] = true
is_nil (x ∷ xs) = false

module _ {Job : Type 0} where
  -- A write to the object `r`.
  abbrev pub write : (ℕ → JobRequest Job) → ℕ → JobRequest Job → ℕ → JobRequest Job
  write objects r req q = if r == q then req else objects q

  -- `set_result` or `set_exception` behind its test `not future.done()`.
  abbrev pub settle : Future → JobRequest Job → JobRequest Job
  settle f req = record req { future = (if done req.future then req.future else f) }

  -- `enqueue`: the new object has the number `r`.
  pub enqueue : Worker Job → ℕ → JobRequest Job → ℕ × Worker Job
  enqueue w r req =
      let pending = put req.job_id r w.pending in
      (
        length pending,
        record w { objects = write w.objects r req; queue = w.queue ++ r ∷ []; pending = pending },
      )

  -- `except asyncio.TimeoutError`
  pub time_out : Worker Job → Worker Job
  time_out w = if none_active w.active && is_nil w.pending then record w { stage = stopped } else w

  fetch_from : Worker Job → List ℕ → Worker Job
  fetch_from w [] = w
  fetch_from w (r ∷ rest) = record w { queue = rest; stage = holding r }

  -- `queue.get()` returns, if there is something to return.
  pub fetch : Worker Job → Worker Job
  unfolding fetch_from
  fetch w = fetch_from w w.queue

  -- The `finally` block, after which the task stands at `stage`.
  pub finally : ℕ → ℕ → Stage → Worker Job → Worker Job
  finally r now stage w = record w {
    objects = write w.objects r (record (w.objects r) { ended_at = now });
    active = none;
    stage = stage;
  }

  -- From the lock to `await req.job()`, or through `continue` to the `finally` block.
  pub begin : ℕ → ℕ → Worker Job → Worker Job
  unfolding finally
  begin r now w =
      let req = record (w.objects r) { started_at = now } in
      let taken = record w {
        objects = write w.objects r req;
        pending = pop req.job_id w.pending;
        active = some r;
      } in
      if req.cancelled
      then finally r now waiting taken
      else record taken { stage = executing r; called = w.called ++ r ∷ [] }

  -- What follows `await req.job()`.
  pub finish : ℕ → Outcome → ℕ → Worker Job → Worker Job
  unfolding finally
  finish r returned now w =
      finally r now waiting (record w { objects = write w.objects r (settle result (w.objects r)) })
  finish r (raised e) now w =
      finally r now waiting
        (record w { objects = write w.objects r (settle (failed e) (w.objects r)) })
  finish r killed now w = finally r now stopped w

  after_begin : (ℕ → Outcome) → ℕ → Stage → Worker Job → Worker Job
  after_begin outcome now (executing r) w = finish r (outcome r) now w
  after_begin outcome now _ w = w

  after_fetch : (ℕ → Outcome) → ℕ → Stage → Worker Job → Worker Job
  after_fetch outcome now (holding r) w =
      let w' = begin r now w in after_begin outcome now w'.stage w'
  after_fetch outcome now _ w = w

  -- One round of the loop of `run()` on a queue that is not empty, with nothing else in between;
  -- `outcome` tells how each job ends.
  pub round : (ℕ → Outcome) → ℕ → Worker Job → Worker Job
  unfolding after_fetch after_begin
  round outcome now w = let w' = fetch w in after_fetch outcome now w'.stage w'

  pub rounds : (ℕ → Outcome) → ℕ → ℕ → Worker Job → Worker Job
  rounds outcome now zero w = w
  rounds outcome now (suc k) w = rounds outcome now k (round outcome now w)

  status_of : Status → ℕ → JobRequest Job → JobStatus
  status_of status position req = record {
    job_id = req.job_id;
    session = req.session;
    status = status;
    position = position;
    queued_at = req.queued_at;
    started_at = req.started_at;
    ended_at = req.ended_at;
  }

  active_status : Worker Job → Option ℕ → List JobStatus
  active_status w none = []
  active_status w (some r) = status_of running 0 (w.objects r) ∷ []

  -- The loop over `enumerate(self._pending.values(), start=idx)`.
  pending_statuses : Worker Job → ℕ → List ℕ → List JobStatus
  pending_statuses w idx [] = []
  pending_statuses w idx (r ∷ rs) =
      status_of queued idx (w.objects r) ∷ pending_statuses w (idx + 1) rs

  pub snapshot : Worker Job → List JobStatus
  unfolding active_status pending_statuses status_of
  snapshot w = active_status w w.active ++ pending_statuses w 1 (values w.pending)

  cancel_found : Worker Job → Text → Option ℕ → Bool × Worker Job
  cancel_found w job_id none = (false, w)
  cancel_found w job_id (some r) = (
    true,
    record w {
      objects =
          write w.objects r
            (settle (failed (str "cancelled")) (record (w.objects r) { cancelled = true }));
      pending = pop job_id w.pending;
    },
  )

  pub cancel : Worker Job → Text → Bool × Worker Job
  unfolding cancel_found
  cancel w job_id = cancel_found w job_id (get job_id w.pending)

  -- The holder of the future cancels it.
  pub abandon : ℕ → Worker Job → Worker Job
  abandon r w = record w { objects = write w.objects r (settle abandoned (w.objects r)) }

  -- `_Worker(...)`, over a store whose content does not matter.
  pub fresh : (ℕ → JobRequest Job) → Worker Job
  fresh objects = record {
    objects = objects;
    queue = [];
    pending = [];
    active = none;
    stage = waiting;
    called = [];
  }
