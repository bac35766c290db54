-- ===== src/Sessions/Queue/Manager/Examples.antt =====
-- `QueueManager` at work; a job is a number.
use pycodebridge.Base.{ℕ, ◌≡◌, ◌≢◌, refl, if◌then◌else◌}
use pycodebridge.Base.Text.{str}
use pycodebridge.Base.Dict.{get, has}
use pycodebridge.Sessions.Queue.Manager.{Manager, init, enqueue, cancel, rekey_channel, pruned}
use pycodebridge.Sessions.Queue.Manager.Ids.{
  AllValid, here, next, enqueues, cancels_job, job_ids_unique, workers_valid,
}
use pycodebridge.Sessions.Queue.Manager.Rekey.{rekey_moves, moved}

abbrev first : Manager ℕ
first = (enqueue init (str "ch:1") (str "default") 7 100).1

-- Two jobs of one channel, the second of them cancelled.
abbrev second : Manager ℕ
second = (enqueue first (str "ch:1") (str "default") 8 101).1

abbrev third : Manager ℕ
third = (cancel second (str "ch:1") (str "job-2")).1

job_ids_unique_example :
    (enqueue third (str "ch:2") (str "default") 9 103).0.1
    ≢ (enqueue first (str "ch:1") (str "default") 8 101).0.1
job_ids_unique_example =
    job_ids_unique first third (str "ch:1") (str "ch:2") (str "default") (str "default") 8 9 101 103
      (next here (cancels_job second (str "ch:1") (str "job-2")))

workers_valid_example : AllValid third
workers_valid_example = workers_valid (
    next
      (next (next here (enqueues init (str "ch:1") (str "default") 7 100))
        (enqueues first (str "ch:1") (str "default") 8 101))
      (cancels_job second (str "ch:1") (str "job-2")))

rekey_moves_example :
    let m' = (rekey_channel first (str "ch:1") (str "ch:1/a")).1 in
    let workers = pruned first.workers in
    (get (str "ch:1/a") m'.last_jobs
      ≡ moved (str "ch:1") (str "ch:1/a") first.last_jobs (str "ch:1/a"))
    × (get (str "ch:1/a") m'.workers ≡ (
        if has (str "ch:1/a") workers
        then get (str "ch:1/a") workers
        else moved (str "ch:1") (str "ch:1/a") workers (str "ch:1/a")))
rekey_moves_example =
    rekey_moves first (str "ch:1") (str "ch:1/a") (str "ch:1/a") refl refl (λ e. cc)
