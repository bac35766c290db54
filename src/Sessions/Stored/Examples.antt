-- ===== src/Sessions/Stored/Examples.antt =====
-- The stored settings at work.
use pycodebridge.Base.Integers.{pos}
use pycodebridge.Base.{true, false, ◌≡◌, refl, ◌&&◌, [], ◌∷◌, some}
use pycodebridge.Base.Text.{Text, str, text_eq, strip, is_name_char}
use pycodebridge.Base.Dict.{get}
use pycodebridge.Util.Path.{chomp, is_name}
use pycodebridge.Routing.Names.{
  find_session, normalize_session_default, normalize_session, existing_thread,
  session_requires_fresh_start,
}
use pycodebridge.Sessions.State.{SessionState, FileState, new_session}
use pycodebridge.Sessions.Stored.{
  Config, sticky_in, update_state, clear_session_thread, select_sticky, is_dm,
}
use pycodebridge.Sessions.Stored.Frame.{Write, updates, apply, writes_leave_others}
use pycodebridge.Sessions.Stored.Settings.{fresh_start_until_thread}

abbrev cfg : Config
cfg = record {
  default_backend = str "codex";
  codex_model = str "m1";
  codex_effort = str "low";
  claude_model = str "m2";
  claude_effort = str "high";
  gemini_model = str "m3";
  dm_enabled = true;
  dm_backend = str "claude";
  dm_model = [];
  dm_effort = [];
}

abbrev same : Text → Text
same s = s

abbrev work : SessionState
work = new_session (str "repo") (str "/code/repo") (str "t1")

-- One channel with one session.
abbrev file : FileState
file = record {
  version = pos 1;
  channels = (str "c", record { sessions = (str "work", work) ∷ []; sticky = [] }) ∷ [];
  dm_bindings = [];
  runtime_options_global = [];
  runtime_options_channels = [];
}

abbrev write : Write
write = updates (str "now") (str "repo") (str "/code/repo") (str "t2") (str "m1") (str "low")

other :
    (text_eq (str "c") (str "c") && text_eq (normalize_session_default (str "new")) (str "work"))
    ≡ false
unfolding normalize_session_default normalize_session strip is_name chomp is_name_char text_eq
other = refl

writes_leave_others_example :
    (find_session (apply same cfg write file (str "c") (str "new")) (str "c") (str "work")
      ≡ find_session file (str "c") (str "work"))
    × (sticky_in (apply same cfg write file (str "c") (str "new")) (str "c")
        ≡ sticky_in file (str "c"))
writes_leave_others_example =
    writes_leave_others same cfg write file (str "c") (str "new") (str "c") (str "work") other

not_dm : is_dm cfg (normalize_session_default (str "work")) ≡ false
unfolding normalize_session_default normalize_session strip is_name chomp is_name_char text_eq
not_dm = refl

work_there : find_session file (str "c") (normalize_session_default (str "work")) ≡ some work
unfolding normalize_session_default normalize_session strip is_name chomp is_name_char text_eq
    find_session get
work_there = refl

fresh_start_until_thread_example :
    let fs' = (clear_session_thread file (str "c") (str "work") true).1 in
    let fs'' =
      update_state same cfg
        (str "now")
        fs'
        (str "c")
        (str "work")
        (str "repo")
        []
        (str "t2")
        []
        [] in
    (existing_thread fs' (str "c") (normalize_session_default (str "work")) ≡ [])
    × (session_requires_fresh_start fs' (str "c") (normalize_session_default (str "work")) ≡ true)
    × (existing_thread fs'' (str "c") (normalize_session_default (str "work")) ≡ str "t2")
    × (session_requires_fresh_start fs'' (str "c") (normalize_session_default (str "work")) ≡ false)
fresh_start_until_thread_example =
    fresh_start_until_thread cfg file (str "c") (str "work") same (str "now") (str "repo") []
      (str "t2") [] [] work work_there refl

abbrev selected_file : FileState
selected_file = select_sticky file (str "c") (str "u") (str "work")
