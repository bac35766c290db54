-- ===== src/Sessions/Queue/Worker/Examples.antt =====
-- `_Worker` of codebridge/sessions/queue.py at work; a job is a number.
use pycodebridge.Base.{
  ℕ, ◌≡◌, ◌≢◌, refl, true, false, [], ◌++◌, some, none, arith, All, keep, length, map,
  if◌then◌else◌, if_intro, ◌==◌,
}
use pycodebridge.Base.Text.{str, text_eq}
use pycodebridge.Base.Dict.{get, put, pop}
use pycodebridge.Base.Decimal.{show}
use pycodebridge.Sessions.Queue.{JobRequest, unset, done, job_name}
use pycodebridge.Sessions.Queue.Worker.{
  Worker, waiting, stopped, Outcome, returned, raised, killed, enqueue, time_out, cancel,
  cancel_found, snapshot, fresh, rounds,
}
use pycodebridge.Sessions.Queue.Worker.Order.{Above}
use pycodebridge.Sessions.Queue.Worker.Entries.{entries, is_live}
use pycodebridge.Sessions.Queue.Worker.Invariant.{IsValid, fresh-IsValid, upcoming, active_of}
use pycodebridge.Sessions.Queue.Worker.Steps.{Reach, here, next, enqueued, cancels, Reach-IsValid}
use pycodebridge.Sessions.Queue.Worker.Safety.{
  called_in_order, cancelled_never_called, idle_exit, cancel_exact,
}
use pycodebridge.Sessions.Queue.Worker.Snapshot.{snapshot_shows, to_list, count_up, visible}
use pycodebridge.Sessions.Queue.Worker.Drain.{rounds_drain}

abbrev job : ℕ → JobRequest ℕ
job n = record {
  job_id = job_name n;
  session = str "default";
  job = n;
  future = unset;
  queued_at = 5;
  started_at = 0;
  ended_at = 0;
  cancelled = false;
}

abbrev new : Worker ℕ
new = fresh job

-- Two jobs queued.
abbrev two : Worker ℕ
two = (enqueue (enqueue new 1 (job 1)).1 2 (job 2)).1

two_reached : Reach 0 new 2 two
two_reached =
    next (next here (enqueued 0 1 new (job 1) (omega arith) refl refl))
      (enqueued 1 2 (enqueue new 1 (job 1)).1 (job 2) (omega arith) refl refl)

called_in_order_example :
    Above 0 two.called
    × All (λ r. (two.objects r).cancelled ≡ false) two.called
    × (two.pending ≡ entries two.objects (upcoming two))
called_in_order_example = called_in_order job two_reached

two-IsValid : IsValid 2 two
two-IsValid = Reach-IsValid (fresh-IsValid 0 job) two_reached

second_pending : get (job_name 2) two.pending ≡ some 2
unfolding enqueue fresh get put text_eq job_name show
second_pending = refl

cancelled_never_called_example :
    All (λ x. x ≢ 2) (cancel two (job_name 2)).1.called
    × (done ((cancel two (job_name 2)).1.objects 2).future ≡ true)
cancelled_never_called_example = cancelled_never_called (job_name 2) two-IsValid second_pending here

-- One job queued, taken and cancelled before it was called.
abbrev one : Worker ℕ
one = (enqueue new 1 (job 1)).1

abbrev cancelled_one : Worker ℕ
cancelled_one = (cancel one (job_name 1)).1

cancelled_one-IsValid : IsValid 1 cancelled_one
cancelled_one-IsValid = Reach-IsValid (fresh-IsValid 0 job) (
    next (next here (enqueued 0 1 new (job 1) (omega arith) refl refl))
      (cancels 1 (job_name 1) one))

cancelled_one_waits : cancelled_one.stage ≡ waiting
unfolding enqueue cancel cancel_found fresh get put pop text_eq job_name show
cancelled_one_waits = refl

cancelled_one_ends : (time_out cancelled_one).stage ≡ stopped
unfolding time_out enqueue cancel cancel_found fresh get put pop text_eq job_name show
cancelled_one_ends = refl

idle_exit_example :
    All
      (λ r.
        ((cancelled_one.objects r).cancelled ≡ true)
        × (done (cancelled_one.objects r).future ≡ true))
      cancelled_one.queue
idle_exit_example =
    idle_exit 1 cancelled_one cancelled_one-IsValid cancelled_one_waits cancelled_one_ends

second_cancelled : (cancel two (job_name 2)).0 ≡ true
unfolding enqueue cancel cancel_found fresh get put pop text_eq job_name show
second_cancelled = refl

cancel_exact_example :
    (r : ℕ) × (get (job_name 2) two.pending ≡ some r)
    × ((two.objects r).job_id ≡ job_name 2)
    × ((two.objects r).cancelled ≡ false)
    × (((cancel two (job_name 2)).1.objects r).cancelled ≡ true)
    × (done ((cancel two (job_name 2)).1.objects r).future ≡ true)
    × ((if r == 1 then two.objects 1 else (cancel two (job_name 2)).1.objects 1) ≡ two.objects 1)
    × (get (job_name 1) (cancel two (job_name 2)).1.pending
        ≡ (if text_eq (job_name 2) (job_name 1) then none else get (job_name 1) two.pending))
cancel_exact_example = cancel_exact 2 1 (job_name 2) (job_name 1) two two-IsValid second_cancelled

snapshot_shows_example :
    (map (λ s. s.job_id) (snapshot two) ≡ map (λ r. (two.objects r).job_id) (visible two))
    × (map (λ s. s.position) (snapshot two)
        ≡ map (λ r. 0) (to_list (active_of two.stage))
          ++ count_up 1 (length (keep (is_live two.objects) (upcoming two))))
snapshot_shows_example = snapshot_shows two two-IsValid

-- The second job raises.
abbrev outcomes : ℕ → Outcome
outcomes n = if n == 2 then raised (str "boom") else returned

outcomes_end : (r : ℕ) → outcomes r ≢ killed
outcomes_end r =
    if_intro (λ o. o ≢ killed) (r == 2) (raised (str "boom")) returned (λ _ e. cc) (λ _ e. cc)

two_waits : two.stage ≡ waiting
unfolding enqueue fresh
two_waits = refl

rounds_drain_example :
    let u = rounds outcomes 9 (length two.queue) two in
    (u.called ≡ two.called ++ keep (is_live two.objects) two.queue)
    × (u.queue ≡ [])
    × (u.pending ≡ [])
    × All (λ x. done (u.objects x).future ≡ true) two.queue
rounds_drain_example = rounds_drain outcomes 9 outcomes_end 2 two two-IsValid two_waits
