-- ===== src/Handlers/Core.antt =====
-- `handle_start` and `handle_resume` of codebridge/handlers/core.py. A reply is a value in place of
-- its text. Between the check of the state and its update the handlers do not await, so that is one
-- step.
pub mod Outcomes
pub mod Limits
pub mod Resume
pub mod Examples
use pycodebridge.Base.{
  ℕ, leb, ltb, ◌+◌, Bool, true, false, not, ◌&&◌, ◌||◌, List, [], ◌∷◌, Option, none, some, any,
  is_some, if◌then◌else◌,
}
use pycodebridge.Base.Options.{◌>>=◌}
use pycodebridge.Base.Text.{Text, str, text_eq, is_empty, strip}
use pycodebridge.Base.Dict.{Dict}
use pycodebridge.Routing.Names.{
  PendingConflict, normalize_session, or_default_session, find_session, count_active_sessions,
  session_exists, session_requires_fresh_start, existing_thread,
}
use pycodebridge.Routing.Repos.{repo_key}
use pycodebridge.Sessions.State.{SessionState, ChannelState, FileState}
use pycodebridge.Sessions.Stored.{Config, or_text, stored, is_dm, session_backend, update_state}
use pycodebridge.Sessions.Tracking.{Tracking, get_active, set_pending_conflict}
use pycodebridge.Sessions.Service.{Service}
use pycodebridge.Sessions.Queue.{JobStatus}
use pycodebridge.Sessions.Queue.Manager
use pycodebridge.Sessions.Queue.Manager.{Manager}
use pycodebridge.Sessions.Coordinator.{Coordinator}
use pycodebridge.Handlers.Session.{
  Args, start_args, resume_args, resume_last_args, Run, Reply, repo_is_busy, session_limit_reached,
  already_exists, session_expired, starting, resuming, queued, Event, Settings, Bridge,
  max_sessions_per_channel,
}
use pycodebridge.Handlers.Backends.{is_backend, model_from_state, effort_from_state, has_backend}
use pycodebridge.Handlers.Busy.{repo_busy, checked_busy}

-- What the agent is called with, and the reply at the first place.
abbrev resume_plan :
    FileState
    → (channel_id session repo_path thread_id prompt model effort : Text)
    → Args × (Text → Text → Text → Text → Reply)
resume_plan fs channel_id session repo_path thread_id prompt model effort =
    if not (is_empty thread_id)
    then (resume_args repo_path thread_id prompt model effort, resuming)
    else if session_exists fs channel_id session
        && not (session_requires_fresh_start fs channel_id session)
    then (resume_last_args repo_path prompt model effort, resuming)
    else (start_args repo_path prompt model effort, starting)

-- The seconds since a timestamp that can be read.
module _ (age : Text → Option ℕ) where
  -- `_session_idle_seconds`.
  abbrev idle_seconds : Text → Option ℕ
  idle_seconds timestamp = if is_empty (strip timestamp) then none else age (strip timestamp)

  abbrev over : ℕ → Option ℕ → Option ℕ
  over ttl none = none
  over ttl (some seconds) = if leb ttl seconds then some seconds else none

  -- The seconds that a session has been idle, when it has expired.
  abbrev expired : Settings → Bool → Option SessionState → Option ℕ
  expired cfg skip_check none = none
  expired cfg skip_check (some sess) =
      if ltb 0 cfg.session_idle_ttl_seconds && not skip_check
      then over cfg.session_idle_ttl_seconds
          (idle_seconds (or_text sess.last_used_at sess.created_at))
      else none

module _ {Proc : Type 0} where
  -- The conflict that waits for the user's choice.
  abbrev ask_user : Settings → Event → Bridge Proc → Text → Text → Text → Text → Text → Bridge Proc
  ask_user cfg event c repo_name session thread_id reason prompt =
      let conflict : PendingConflict = record {
        repo_name = repo_name;
        session = session;
        thread_id = thread_id;
        user_id = event.author_id;
        expires_at = event.now + cfg.conflict_ttl_seconds;
        reason = reason;
        prompt = prompt;
      } in
      let tracked = set_pending_conflict c.sessions.tracked event.channel_id session conflict in
      record c { sessions = record c.sessions { tracked = tracked } }

module _ {Proc : Type 0} (lower : Text → Text) where
  -- The session is stored and the job queued; the reply says at which place.
  abbrev launch :
      Settings
      → Event
      → Bridge Proc
      → (repo_name repo_path session thread_id model effort : Text) → Args
      → (Text → Text → Text → Text → Reply)
      → Reply × Bridge Proc
  launch cfg event c repo_name repo_path session thread_id model effort args first =
      let fs =
        update_state lower cfg.service event.utc_now c.sessions.file event.channel_id session
          repo_name repo_path thread_id model effort in
      let run : Run = record {
        repo_name = repo_name;
        repo_path = repo_path;
        session = session;
        model = model;
        effort = effort;
        args = args;
      } in
      let (placed, queue) = Manager.enqueue c.queue event.channel_id session run event.loop_now in
      let backend = session_backend cfg.service fs event.channel_id session in
      (
        (if leb placed.0 1
            then first session backend model effort
            else queued session backend placed.1 placed.0),
        record { queue = queue; sessions = record c.sessions { file = fs } },
      )

  abbrev start_checked :
      Settings
      → Event
      → Bridge Proc
      → (repo_name repo_path session : Text) → Option (Reply × Bridge Proc)
  start_checked cfg event c repo_name repo_path session =
      let fs = c.sessions.file in
      let thread_id = existing_thread fs event.channel_id session in
      let model = model_from_state cfg.service fs event.channel_id session in
      let effort = effort_from_state cfg.service fs event.channel_id session in
      if leb max_sessions_per_channel (count_active_sessions fs event.channel_id)
        && not (session_exists fs event.channel_id session)
      then some (session_limit_reached, c)
      else if not (is_empty thread_id)
      then some (
        already_exists session,
        ask_user cfg event c repo_name session thread_id (str "start_conflict") [],
      )
      else if not (has_backend lower cfg.service fs event.channel_id session)
      then none
      else some (
          launch cfg event c repo_name repo_path session thread_id model effort
            (start_args repo_path (cfg.start_prompt repo_name) model effort) starting)

  -- `none`: the name of the session or the stored backend is refused by an exception.
  unfoldable pub handle_start :
      Settings
      → Event
      → Bridge Proc
      → (repo_name repo_path session : Text) → Option (Reply × Bridge Proc)
  handle_start cfg event c repo_name repo_path raw_session =
      normalize_session raw_session >>= λ session.
      let (busy, c') = checked_busy lower cfg c repo_name event.channel_id session in
      if busy
      then some (repo_is_busy repo_name, c')
      else start_checked cfg event c' repo_name repo_path session

  abbrev resume_checked :
      Settings
      → Event
      → Bridge Proc
      → (repo_name repo_path session prompt : Text) → Option ℕ
      → Option (Reply × Bridge Proc)
  resume_checked cfg event c repo_name repo_path session prompt (some idle) = some (
    session_expired session idle,
    ask_user cfg event c repo_name session
        (existing_thread c.sessions.file event.channel_id session) (str "session_expired") prompt,
  )
  resume_checked cfg event c repo_name repo_path session prompt none =
      let fs = c.sessions.file in
      let thread_id = existing_thread fs event.channel_id session in
      let model = model_from_state cfg.service fs event.channel_id session in
      let effort = effort_from_state cfg.service fs event.channel_id session in
      let (args, first) =
        resume_plan fs event.channel_id session repo_path thread_id prompt model effort in
      if has_backend lower cfg.service fs event.channel_id session
      then some (launch cfg event c repo_name repo_path session thread_id model effort args first)
      else none

  unfoldable pub handle_resume :
      (Text → Option ℕ)
      → Settings
      → Event
      → Bridge Proc
      → (repo_name repo_path session prompt : Text) → Bool
      → Option (Reply × Bridge Proc)
  handle_resume age cfg event c repo_name repo_path raw_session prompt skip_idle_ttl_check =
      normalize_session raw_session >>= λ session.
      let (busy, c') = checked_busy lower cfg c repo_name event.channel_id session in
      let sess = find_session c'.sessions.file event.channel_id session in
      if busy
      then some (repo_is_busy repo_name, c')
      else resume_checked cfg event c' repo_name repo_path session prompt
          (expired age cfg skip_idle_ttl_check sess)
