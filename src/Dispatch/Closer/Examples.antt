-- ===== src/Dispatch/Closer/Examples.antt =====
-- The end of a task at work; the world is the stored state.
use pycodebridge.Base.Integers.{pos}
use pycodebridge.Base.{◌≡◌, refl, [], ◌∷◌}
use pycodebridge.Base.Text.{str, text_eq, strip, is_name_char, split_on}
use pycodebridge.Base.Text.Lines.{splitlines}
use pycodebridge.Base.Dict.{get}
use pycodebridge.Util.Path.{is_name, chomp}
use pycodebridge.Routing.Names.{find_session, normalize_session, normalize_session_default}
use pycodebridge.Sessions.State.{FileState, new_session}
use pycodebridge.Sessions.Stored.{get_task_branch}
use pycodebridge.Dispatch.Program.{other_error, returned, raised}
use pycodebridge.Dispatch.Closer.{
  Effects, and_then, guarded, open_pr, merge, delete_branches, cleanup_worker_branches, close,
}
use pycodebridge.Dispatch.Closer.Outcome.{IsQuiet, close_clears, close_keeps}

abbrev file : FileState
file = record {
  version = pos 1;
  channels =
      (
        str "c",
        record {
          sessions =
              (
                str "work",
                record (new_session (str "r") (str "/r") []) { task_branch = str "task/1" },
              )
              ∷ [];
          sticky = [];
        },
      )
      ∷ [];
  dm_bindings = [];
  runtime_options_global = [];
  runtime_options_channels = [];
}

-- Every command succeeds.
abbrev fine : Effects FileState
fine = record {
  git = λ args w. (returned tt, w);
  git_output = λ args w. (returned (str "task/1-codex"), w);
  gh_output = λ args w. (returned (str "url"), w);
  send = λ text w. (returned tt, w);
  file = λ w. w;
  write = λ f w. f;
}

-- `git` always fails.
abbrev broken : Effects FileState
broken = record fine { git = λ args w. (raised (other_error (str "no remote")), w) }

fine_returns : (close fine (str "c") (str "work") (str "merge") file).0 ≡ returned tt
unfolding close merge and_then guarded delete_branches cleanup_worker_branches get_task_branch
    find_session normalize_session_default normalize_session strip is_name chomp is_name_char
    text_eq get split_on splitlines
fine_returns = refl

close_clears_example :
    get_task_branch (close fine (str "c") (str "work") (str "merge") file).1 (str "c") (str "work")
    ≡ []
close_clears_example =
    close_clears fine (str "c") (str "work") (str "merge") file (λ f w. refl) fine_returns

broken-IsQuiet : IsQuiet broken
broken-IsQuiet = record {
  git = λ args w. refl;
  git_output = λ args w. refl;
  gh_output = λ args w. refl;
  send = λ text w. refl;
}

broken_raises :
    (close broken (str "c") (str "work") (str "pr") file).0 ≡ raised (other_error (str "no remote"))
unfolding close open_pr and_then get_task_branch find_session normalize_session_default
    normalize_session strip is_name chomp is_name_char text_eq get
broken_raises = refl

close_keeps_example : (close broken (str "c") (str "work") (str "pr") file).1 ≡ file
close_keeps_example =
    close_keeps broken (str "c") (str "work") (str "pr") (other_error (str "no remote")) file
      broken-IsQuiet broken_raises
