-- ===== src/Dispatch/Orchestrator/Examples.antt =====
-- Two agents at work on a task branch, one of which fails.
use pycodebridge.Base.{◌+◌, ◌≡◌, Bool, true, false, List, [], ◌∷◌, ◌++◌, if◌then◌else◌}
use pycodebridge.Base.Integers.{pos}
use pycodebridge.Base.Text.{Text, str, text_eq}
use pycodebridge.Dispatch.Parser.{DispatchSpec}
use pycodebridge.Dispatch.Program.{
  other_error, Outcome, returned, raised, Call, get_branch, set_branch, timestamp, uuid_hex, send,
  build_backend, create, remove, run_agent, git_output, git_diff, ReplyOf, Event, Answers,
}
use pycodebridge.Dispatch.Program.Traces.{
  count, Zip, ends, left, right, Interleaved, none_left, weave,
}
use pycodebridge.Dispatch.Program.Ends.{IsKind}
use pycodebridge.Dispatch.Orchestrator.{Settings, run_worker}
use pycodebridge.Dispatch.Orchestrator.Worktrees.{is_created, is_removed, is_left}
use pycodebridge.Dispatch.Orchestrator.Run.{run, work_all}
use pycodebridge.Dispatch.Orchestrator.Run.Removed.{worktrees_removed}
use pycodebridge.Dispatch.Orchestrator.Run.Results.{AreResultsOf}
use pycodebridge.Dispatch.Orchestrator.Run.Reported.{every_agent_reported}

abbrev settings : Settings
settings = record {
  output_mode = str "both";
  plan_prompt = str "Plan {{USER_REQUEST}} for {{AGENTS}}";
  symlink_dirs = str ".venv" ∷ [];
}

abbrev two_agents : List Text
two_agents = str "codex" ∷ str "gemini" ∷ []

abbrev spec : DispatchSpec
spec = record {
  agents = two_agents;
  prompt = str "fix the tests";
  is_orchestrated = false;
  is_fanout = true;
  raw = str "@codex @gemini fix the tests";
}

-- The agent prints two lines and ends with code 1.
abbrev reply : (c : Call) → Outcome (ReplyOf c)
reply (get_branch channel_id session) = returned (str "task/app/1")
reply (set_branch channel_id session branch) = returned tt
reply timestamp = returned (str "20260101-120000")
reply uuid_hex = returned (str "0123456789abcdef")
reply (send text) = returned tt
reply (build_backend agent) = returned tt
reply (create repo_path key base branch dirs) = returned (str "/code/app-wt")
reply (remove path) = returned tt
reply (run_agent agent path prompt) =
    returned (record { rc = pos 1; output_lines = str "one" ∷ str "two" ∷ []; stderr_lines = [] })
reply (git_output path args) = returned []
reply (git_diff path base) = returned (pos 0, [])

abbrev answers : Answers
answers h c = reply c

-- gemini cannot run.
abbrev broken : (c : Call) → Outcome (ReplyOf c)
broken (run_agent agent path prompt) = raised (other_error (str "gemini: not found"))
broken c = reply c

abbrev answers_of : Text → Answers
answers_of agent h c = if text_eq agent (str "gemini") then broken c else reply c

-- One task after the other.
abbrev in_turn : List (List Event) → List Event
in_turn [] = []
in_turn (t ∷ ts) = t ++ in_turn ts

after : (t u : List Event) → Zip t u (t ++ u)
after [] [] = ends
after [] (e ∷ u) = right (after [] u)
after (e ∷ t) u = left (after t u)

in_turn-Interleaved : (ts : List (List Event)) → Interleaved ts (in_turn ts)
in_turn-Interleaved [] = none_left
in_turn-Interleaved (t ∷ ts) = weave (in_turn-Interleaved ts) (after t (in_turn ts))

worktrees_removed_example :
    let h =
      (run settings answers_of in_turn
        (str "c")
        (str "work")
        (str "/code/app")
        (str "app")
        spec
        answers
        []).1 in
    count (is_created (str "/code/app-wt")) h
    ≡ count (is_removed (str "/code/app-wt")) h + count (is_left (str "/code/app-wt")) h
worktrees_removed_example =
    worktrees_removed (str "/code/app-wt") settings answers_of in_turn in_turn-Interleaved (str "c")
      (str "work") (str "/code/app") (str "app") spec answers

answers-IsKind : IsKind answers
answers-IsKind = record {
  sends = λ h t. tt;
  names = λ h. tt;
  removes = λ h path. tt;
  builds = λ h agent. tt;
  creates = λ h r key base branch dirs. tt;
  runs = λ h a w q. tt;
  gits = λ h w args. tt;
  diffs = λ h w b. tt;
}

broken-IsKind : IsKind (λ h. broken)
broken-IsKind = record {
  sends = λ h t. tt;
  names = λ h. tt;
  removes = λ h path. tt;
  builds = λ h agent. tt;
  creates = λ h r key base branch dirs. tt;
  runs = λ h a w q. tt;
  gits = λ h w args. tt;
  diffs = λ h w b. tt;
}

chosen-IsKind : (b : Bool) → IsKind (λ h c. if b then broken c else reply c)
chosen-IsKind true = broken-IsKind
chosen-IsKind false = answers-IsKind

every_agent_reported_example :
    (rs : List _) × (((work_all answers_of in_turn true
          (run_worker settings (str "/code/app") (str "task/app/1") (str "fix the tests"))
          two_agents
          answers
          []).0
        ≡ returned rs)
      × AreResultsOf two_agents rs)
every_agent_reported_example =
    every_agent_reported answers answers_of in_turn settings answers-IsKind
      (λ a. chosen-IsKind (text_eq a (str "gemini"))) (str "/code/app") (str "task/app/1")
      (str "fix the tests") true two_agents []
