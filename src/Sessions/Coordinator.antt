-- ===== src/Sessions/Coordinator.antt =====
-- codebridge/sessions/coordinator.py: the queue and the service together. The methods that only
-- hand a call on to one of the two are that call.
use pycodebridge.Base.{ℕ, Bool, ◌||◌, Option, none, some}
use pycodebridge.Base.Text.{Text}
use pycodebridge.Sessions.Queue.{JobRecord}
use pycodebridge.Sessions.Queue.Manager
use pycodebridge.Sessions.Queue.Manager.{Manager}
use pycodebridge.Sessions.Service.{Service, migrate_channel_scope}

pub record Coordinator (Job Proc : Type 0) : Type 0 where
  pub queue : Manager Job
  pub sessions : Service Proc

module _ {Job Proc : Type 0} where
  rerun_found :
      Coordinator Job Proc → Text → ℕ → Option (JobRecord Job) → Option Text × Coordinator Job Proc
  rerun_found c channel_id now none = (none, c)
  rerun_found c channel_id now (some last) =
      let (placed, queue) = Manager.enqueue c.queue channel_id last.session last.job now in
      (some placed.1, record c { queue = queue })

  -- `now` is the event loop's time.
  pub rerun : Coordinator Job Proc → Text → ℕ → Option Text × Coordinator Job Proc
  unfolding rerun_found
  rerun c channel_id now = rerun_found c channel_id now (Manager.last_job c.queue channel_id)

  pub migrate : Coordinator Job Proc → Text → Text → Bool × Coordinator Job Proc
  migrate c from to =
      let (queue_changed, queue) = Manager.rekey_channel c.queue from to in
      let (session_changed, sessions) = migrate_channel_scope c.sessions from to in
      (queue_changed || session_changed, record { queue = queue; sessions = sessions })
