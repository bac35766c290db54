-- ===== src/Sessions/Queue/Manager/Ids.antt =====
-- The manager's invariant, and the ids that it gives out.
use pycodebridge.Base.{
  ℕ, ◌+◌, ◌≤◌, ◌≡◌, ◌≢◌, refl, Bool, true, false, not, ◌||◌, [], ◌∷◌, Option, none, some, arith,
  if_intro,
}
use pycodebridge.Base.Text.{Text, is_empty, text_eq}
use pycodebridge.Base.Dict.{
  Dict, get, put, has, Values, Values-get, Values-put, Values-pop, Values-keep,
}
use pycodebridge.Sessions.Queue.Worker
use pycodebridge.Sessions.Queue.Worker.{Worker, Stage, stopped}
use pycodebridge.Sessions.Queue.Worker.Invariant.{IsValid, IsValid-mono, fresh-IsValid}
use pycodebridge.Sessions.Queue.Worker.Steps.{enqueued, cancels, Step-IsValid}
use pycodebridge.Sessions.Queue.Worker.Steps
use pycodebridge.Sessions.Queue.Worker.Entries.{job_name_injective}
use pycodebridge.Sessions.Queue.Manager.{
  Manager, ended, pruned, init, request, worker_or_new, enqueue, snapshot, snapshot_all, cancel,
  cancel_in, rekey_workers, rekey_channel,
}

module _ {Job : Type 0} where
  abbrev pub AllValid : Manager Job → Type 0
  AllValid m = Values (IsValid m.counter) m.workers

  -- A call of the manager, or a step of one channel's worker or of its clients.
  pub data Step : Manager Job → Manager Job → Type 0 where
    enqueues :
        (m : Manager Job) (channel session : Text) (job : Job) (now : ℕ)
        → Step m (enqueue m channel session job now).1
    snapshots : (m : Manager Job) (channel : Text) → Step m (snapshot m channel).1
    snapshots_all : (m : Manager Job) → Step m (snapshot_all m).1
    cancels_job : (m : Manager Job) (channel job_id : Text) → Step m (cancel m channel job_id).1
    rekeys : (m : Manager Job) (from to : Text) → Step m (rekey_channel m from to).1
    works :
        (m : Manager Job) (channel : Text) (w u : Worker Job)
        → get channel m.workers ≡ some w
        → Steps.Step m.counter w m.counter u
        → Step m (record m { workers = put channel u m.workers })

  pub data Reach (m : Manager Job) : Manager Job → Type 0 where
    here : Reach m m
    next : {u v : Manager Job} → Reach m u → Step u v → Reach m v

  all_mono : (m n : ℕ) (d : Dict (Worker Job)) → m ≤ n → Values (IsValid m) d → Values (IsValid n) d
  all_mono m n [] h a = tt
  all_mono m n ((c, w) ∷ d) h a = (IsValid-mono m n w h a.0, all_mono m n d h a.1)

  enqueued-IsValid :
      (n : ℕ) (session : Text) (job : Job) (now : ℕ) (found : Option (Worker Job))
      → ((w : Worker Job) → found ≡ some w → IsValid n w)
      → IsValid
          (n + 1)
          (Worker.enqueue
            (worker_or_new (request (n + 1) session job now) found)
            (n + 1)
            (request (n + 1) session job now)).1
  enqueued-IsValid n session job now none v =
      Step-IsValid (enqueued n (n + 1) _ (request (n + 1) session job now) (omega arith) refl refl)
        (fresh-IsValid n (λ _. request (n + 1) session job now))
  enqueued-IsValid n session job now (some w) v =
      Step-IsValid (enqueued n (n + 1) w (request (n + 1) session job now) (omega arith) refl refl)
        (v w refl)

  enqueue-AllValid :
      (m : Manager Job) (channel session : Text) (job : Job) (now : ℕ)
      → AllValid m
      → AllValid (enqueue m channel session job now).1
  unfolding enqueue
  enqueue-AllValid m channel session job now v =
      let old = Values-keep (IsValid m.counter) (λ e. not (ended e.1.stage)) m.workers v in
      Values-put (IsValid (m.counter + 1)) channel _ (pruned m.workers)
        (all_mono m.counter (m.counter + 1) (pruned m.workers) (omega arith) old)
        (enqueued-IsValid m.counter session job now (get channel (pruned m.workers))
          (λ w e. Values-get (IsValid m.counter) channel w (pruned m.workers) old e))

  cancel_in-AllValid :
      (m : Manager Job) (channel id : Text) (found : Option (Worker Job))
      → ((w : Worker Job) → found ≡ some w → IsValid m.counter w)
      → AllValid m
      → AllValid (cancel_in m channel id found).1
  unfolding cancel_in
  cancel_in-AllValid m channel id none h v = v
  cancel_in-AllValid m channel id (some w) h v =
      Values-put (IsValid m.counter) channel _ m.workers v
        (Step-IsValid (cancels m.counter id w) (h w refl))

  rekey_workers-IsValid :
      (n : ℕ) (from to : Text) (d : Dict (Worker Job)) (found : Option (Worker Job)) (taken : Bool)
      → ((w : Worker Job) → found ≡ some w → IsValid n w)
      → Values (IsValid n) d
      → Values (IsValid n) (rekey_workers from to d found taken).1
  unfolding rekey_workers
  rekey_workers-IsValid n from to d (some w) false h v =
      Values-pop (IsValid n) from (put to w d) (Values-put (IsValid n) to w d v (h w refl))
  rekey_workers-IsValid n from to d none taken h v = v
  rekey_workers-IsValid n from to d (some w) true h v = v

  -- Every call of the manager and every step of a worker keeps the workers valid.
  pub Step-AllValid : {m n : Manager Job} → Step m n → AllValid m → AllValid n
  unfolding snapshot snapshot_all cancel rekey_channel
  Step-AllValid (enqueues m channel session job now) v =
      enqueue-AllValid m channel session job now v
  Step-AllValid (snapshots m channel) v = Values-keep (IsValid m.counter) _ m.workers v
  Step-AllValid (snapshots_all m) v = Values-keep (IsValid m.counter) _ m.workers v
  Step-AllValid (cancels_job m channel id) v =
      let old = Values-keep (IsValid m.counter) (λ e. not (ended e.1.stage)) m.workers v in
      cancel_in-AllValid (record m { workers = pruned m.workers }) channel id
        (get channel (pruned m.workers))
        (λ w e. Values-get (IsValid m.counter) channel w (pruned m.workers) old e) old
  Step-AllValid (rekeys m from to) v =
      let old = Values-keep (IsValid m.counter) (λ e. not (ended e.1.stage)) m.workers v in
      if_intro (λ (r : Bool × Manager Job). AllValid r.1)
        (is_empty from || is_empty to || text_eq from to) _ _ (λ _. v)
        (λ _.
          rekey_workers-IsValid m.counter from to (pruned m.workers) (get from (pruned m.workers))
            (has to (pruned m.workers))
            (λ w e. Values-get (IsValid m.counter) from w (pruned m.workers) old e) old)
  Step-AllValid (works m channel w u e s) v =
      Values-put (IsValid m.counter) channel u m.workers v
        (Step-IsValid s (Values-get (IsValid m.counter) channel w m.workers v e))

  pub Reach-AllValid : {m n : Manager Job} → AllValid m → Reach m n → AllValid n
  Reach-AllValid v here = v
  Reach-AllValid v (next r s) = Step-AllValid s (Reach-AllValid v r)

  counter-cancel_in :
      (m : Manager Job) (channel id : Text) (found : Option (Worker Job))
      → m.counter ≤ (cancel_in m channel id found).1.counter
  unfolding cancel_in
  counter-cancel_in m channel id none = omega arith
  counter-cancel_in m channel id (some w) = omega arith

  Step-counter : {m n : Manager Job} → Step m n → m.counter ≤ n.counter
  unfolding enqueue snapshot snapshot_all cancel rekey_channel
  Step-counter (enqueues m channel session job now) = omega arith
  Step-counter (snapshots m channel) = omega arith
  Step-counter (snapshots_all m) = omega arith
  Step-counter (cancels_job m channel id) =
      counter-cancel_in (record m { workers = pruned m.workers }) channel id
        (get channel (pruned m.workers))
  Step-counter (rekeys m from to) =
      if_intro (λ (r : Bool × Manager Job). m.counter ≤ r.1.counter)
        (is_empty from || is_empty to || text_eq from to) _ _ (λ _. omega arith) (λ _. omega arith)
  Step-counter (works m channel w u e s) = omega arith

  Reach-counter : {m n : Manager Job} → Reach m n → m.counter ≤ n.counter
  Reach-counter here = omega arith
  Reach-counter (next r s) = omega (arith, Reach-counter r, Step-counter s)

  -- No two calls of `enqueue`, on whatever channels and with whatever in between, return one id.
  pub job_ids_unique :
      (m n : Manager Job) (c d s t : Text) (job job' : Job) (now now' : ℕ)
      → Reach (enqueue m c s job now).1 n
      → (enqueue n d t job' now').0.1 ≢ (enqueue m c s job now).0.1
  unfolding enqueue
  job_ids_unique m n c d s t job job' now now' r e =
      let same = job_name_injective (n.counter + 1) (m.counter + 1) e in
      absurd (omega (arith, Reach-counter r, same))

-- From an empty manager on every worker is valid, whatever is called and in whatever order the
-- workers run.
pub workers_valid : {Job : Type 0} {m : Manager Job} → Reach init m → AllValid m
unfolding init
workers_valid r = Reach-AllValid tt r
