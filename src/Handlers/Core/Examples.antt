-- ===== src/Handlers/Core/Examples.antt =====
-- A session called new in a channel that has one session; a process is a number.
use pycodebridge.Base.{
  ℕ, ◌+◌, ◌≤◌, ◌≡◌, refl, arith, true, false, [], ◌∷◌, ◌++◌, Option, none, some,
}
use pycodebridge.Base.Integers.{pos}
use pycodebridge.Base.Text.{Text, str, text_eq, strip, strip_by, lstrip, rstrip, is_name_char}
use pycodebridge.Base.Dict.{get}
use pycodebridge.Util.Path.{chomp, is_name}
use pycodebridge.Routing.Names.{
  normalize_session, normalize_session_default, find_session, count_active_sessions, session_exists,
  existing_thread,
}
use pycodebridge.Sessions.State.{FileState, new_session}
use pycodebridge.Sessions.Queue.Manager
use pycodebridge.Handlers.Session.{
  Settings, Event, Reply, Bridge, starting, start_args, max_sessions_per_channel,
}
use pycodebridge.Handlers.Backends.{model_from_state, effort_from_state, has_backend}
use pycodebridge.Handlers.Core.{launch, handle_start, handle_resume}
use pycodebridge.Handlers.Core.Limits.{handle_start_limit, threads_kept}
use pycodebridge.Handlers.Core.Resume.{resume_adds_session}

abbrev same : Text → Text
same s = s

abbrev no_age : Text → Option ℕ
no_age t = none

abbrev settings : Settings
settings = record {
  service = record {
    default_backend = str "codex";
    codex_model = str "m1";
    codex_effort = str "low";
    claude_model = str "m2";
    claude_effort = str "high";
    gemini_model = str "m3";
    dm_enabled = true;
    dm_backend = str "claude";
    dm_model = [];
    dm_effort = [];
  };
  session_isolation = true;
  conflict_ttl_seconds = 300;
  session_idle_ttl_seconds = 0;
  start_prompt = λ repo_name. str "Work on " ++ repo_name;
}

abbrev event : Event
event = record {
  channel_id = str "c";
  author_id = str "u";
  now = 100;
  loop_now = 7;
  utc_now = str "2026-01-01T00:00:00Z";
}

abbrev file : FileState
file = record {
  version = pos 1;
  channels =
      (
        str "c",
        record {
          sessions = (str "work", new_session (str "repo") (str "/code/repo") (str "t1")) ∷ [];
          sticky = [];
        },
      )
      ∷ [];
  dm_bindings = [];
  runtime_options_global = [];
  runtime_options_channels = [];
}

abbrev bridge : Bridge ℕ
bridge = record {
  queue = Manager.init;
  sessions = record { file = file; tracked = record { active = []; pending = []; activity = [] } };
}

abbrev started : Reply × Bridge ℕ
started =
    launch same settings event bridge (str "repo") (str "/code/repo") (str "new") [] (str "m1")
      (str "low") (start_args (str "/code/repo") (str "Work on repo") (str "m1") (str "low"))
      starting

start_answer :
    handle_start same settings event bridge (str "repo") (str "/code/repo") (str "new")
    ≡ some (started.0, started.1)
unfolding handle_start normalize_session is_name chomp is_name_char count_active_sessions
    session_exists existing_thread find_session get text_eq model_from_state effort_from_state
    has_backend
start_answer = refl

abbrev resumed : Reply × Bridge ℕ
resumed =
    launch same settings event bridge (str "repo") (str "/code/repo") (str "new") [] (str "m1")
      (str "low") (start_args (str "/code/repo") (str "go on") (str "m1") (str "low")) starting

resume_answer :
    handle_resume same no_age settings event bridge
      (str "repo")
      (str "/code/repo")
      (str "new")
      (str "go on")
      false
    ≡ some (resumed.0, resumed.1)
unfolding handle_resume normalize_session is_name chomp is_name_char count_active_sessions
    session_exists existing_thread find_session get text_eq model_from_state effort_from_state
    has_backend
resume_answer = refl

named_new : normalize_session (str "new") ≡ some (str "new")
unfolding normalize_session is_name chomp is_name_char
named_new = refl

stable_new : normalize_session_default (str "new") ≡ str "new"
unfolding normalize_session_default normalize_session is_name chomp is_name_char strip strip_by
    lstrip rstrip
stable_new = refl

few : count_active_sessions file (str "c") ≤ max_sessions_per_channel
unfolding count_active_sessions get text_eq
few = omega arith

handle_start_limit_example :
    count_active_sessions started.1.sessions.file (str "c") ≤ max_sessions_per_channel
handle_start_limit_example =
    handle_start_limit same settings event bridge started.1 (str "repo") (str "/code/repo")
      (str "new") (str "new") started.0 named_new stable_new start_answer (str "c") few

threads_kept_example :
    (existing_thread started.1.sessions.file (str "c") (str "work")
      ≡ existing_thread file (str "c") (str "work"))
    × (existing_thread resumed.1.sessions.file (str "c") (str "work")
        ≡ existing_thread file (str "c") (str "work"))
threads_kept_example =
    threads_kept same no_age settings event bridge started.1 resumed.1 (str "repo")
      (str "/code/repo") (str "new") (str "new") (str "go on") false started.0 resumed.0 named_new
      stable_new start_answer resume_answer (str "c") (str "work")

-- A channel with three sessions.
abbrev crowded : Bridge ℕ
crowded = record {
  queue = Manager.init;
  sessions = record {
    file = record file {
      channels =
          (
            str "c",
            record {
              sessions =
                  (str "a", new_session (str "repo") (str "/code/repo") (str "t1"))
                  ∷ (str "b", new_session (str "repo") (str "/code/repo") (str "t2"))
                  ∷ (str "work", new_session (str "repo") (str "/code/repo") (str "t3"))
                  ∷ [];
              sticky = [];
            },
          )
          ∷ [];
    };
    tracked = record { active = []; pending = []; activity = [] };
  };
}

new_missing : session_exists crowded.sessions.file (str "c") (str "new") ≡ false
unfolding session_exists find_session get text_eq
new_missing = refl

runner_there : has_backend same settings.service crowded.sessions.file (str "c") (str "new") ≡ true
unfolding has_backend find_session get text_eq
runner_there = refl

resume_adds_session_example :
    (answer : Reply × Bridge ℕ) × ((handle_resume same no_age settings event crowded
          (str "repo")
          (str "/code/repo")
          (str "new")
          (str "go on")
          false
        ≡ some answer)
      × (count_active_sessions answer.1.sessions.file (str "c")
          ≡ 1 + count_active_sessions crowded.sessions.file (str "c"))
      × (answer.1.queue
          ≡ (Manager.enqueue crowded.queue
              (str "c")
              (str "new")
              (record {
                repo_name = str "repo";
                repo_path = str "/code/repo";
                session = str "new";
                model =
                    model_from_state settings.service crowded.sessions.file (str "c") (str "new");
                effort =
                    effort_from_state settings.service crowded.sessions.file (str "c") (str "new");
                args =
                    start_args
                      (str "/code/repo")
                      (str "go on")
                      (model_from_state settings.service crowded.sessions.file
                        (str "c")
                        (str "new"))
                      (effort_from_state settings.service crowded.sessions.file
                        (str "c")
                        (str "new"));
              })
              7).1))
resume_adds_session_example =
    resume_adds_session same no_age settings event crowded (str "repo") (str "/code/repo")
      (str "new") (str "new") (str "go on") false named_new stable_new refl runner_there new_missing
