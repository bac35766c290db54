-- ===== src/Handlers/Session.antt =====
-- What `handle_start` and `handle_resume` of codebridge/handlers/core.py are given and answer.
use pycodebridge.Base.{ℕ, Bool}
use pycodebridge.Base.Text.{Text}
use pycodebridge.Sessions.Stored.{Config}
use pycodebridge.Sessions.Coordinator.{Coordinator}

-- `build_start_args`, `build_resume_args` or `build_resume_last_args` of the backend, called with
-- these arguments.
pub data Args : Type 0 where
  start_args : (repo_path prompt model effort : Text) → Args
  resume_args : (repo_path thread_id prompt model effort : Text) → Args
  resume_last_args : (repo_path prompt model effort : Text) → Args

-- What the job calls `run_codex` with.
pub record Run : Type 0 where
  pub repo_name : Text
  pub repo_path : Text
  pub session : Text
  pub model : Text
  pub effort : Text
  pub args : Args

pub data Reply : Type 0 where
  repo_is_busy : (repo_name : Text) → Reply
  session_limit_reached : Reply
  already_exists : (session : Text) → Reply
  session_expired : (session : Text) (idle_seconds : ℕ) → Reply
  starting resuming : (session backend model effort : Text) → Reply
  queued : (session backend job_id : Text) (position : ℕ) → Reply

-- The configuration, and what the platform and the clocks say of the event: `time.time()`, the
-- event loop's time and `utc_now_iso()`.
pub record Event : Type 0 where
  pub channel_id : Text
  pub author_id : Text
  pub now : ℕ
  pub loop_now : ℕ
  pub utc_now : Text

pub record Settings : Type 0 where
  pub service : Config
  pub session_isolation : Bool
  pub conflict_ttl_seconds : ℕ
  pub session_idle_ttl_seconds : ℕ
  -- `start_prompt` with the repository's name put in
  pub start_prompt : Text → Text

abbrev pub max_sessions_per_channel : ℕ
max_sessions_per_channel = 3

abbrev pub Bridge : Type 0 → Type 0
Bridge Proc = Coordinator Run Proc
