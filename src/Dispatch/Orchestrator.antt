-- ===== src/Dispatch/Orchestrator.antt =====
-- codebridge/dispatch/orchestrator.py: a task branch, a planning step and the agents at work on forks
-- of the branch. What it asks of the world is in Dispatch.Program; the messages that `on_output`
-- forwards while an agent runs are part of the call that runs it.
pub mod Run
pub mod Worktrees
pub mod Removed
pub mod Examples
pub mod Slugs
pub mod SlugExamples
use pycodebridge.Base.{
  ℕ, zero, suc, ◌-◌, ltb, ◌==◌, ◌+◌, Bool, true, false, not, ◌&&◌, List, [], ◌∷◌, ◌++◌, keep, map,
  length, take, drop, if◌then◌else◌,
}
use pycodebridge.Base.Integers.{ℤ, pos, negsuc}
use pycodebridge.Base.Text.{
  Text, str, text_eq, is_empty, is_name_char, starts_with, strip, strip_by, join,
}
use pycodebridge.Base.Text.Lines.{splitlines}
use pycodebridge.Base.Decimal.{show}
use pycodebridge.Util.Chunk.{newline}
use pycodebridge.Dispatch.Output.{AgentResult, on_agent_start, on_agent_done, on_all_done}
use pycodebridge.Dispatch.Parser.{DispatchSpec}
use pycodebridge.Dispatch.Program.{
  Failure, worktree_error, orchestrator_error, value_error, other_error, cancelled, Outcome,
  returned, raised, Exit, get_branch, set_branch, timestamp, uuid_hex, send, build_backend, create,
  remove, run_agent, git_output, git_diff, Event, Answers, Task, ask, pass, fail, ◌>>=◌, ◌>>◌,
  try_else, finally, for_each, collect_each,
}

-- What the orchestrator reads of the configuration.
pub record Settings : Type 0 where
  pub output_mode : Text
  pub plan_prompt : Text
  pub symlink_dirs : List Text

-- `text.replace(pattern, new)`, with the characters still to skip of an occurrence.
unfoldable pub replace_from : Text → Text → ℕ → Text → Text
replace_from pattern new skipped [] = []
replace_from pattern new (suc skipped) (c ∷ text) = replace_from pattern new skipped text
replace_from pattern new zero (c ∷ text) =
    let found = starts_with pattern (c ∷ text) in
    let rest = replace_from pattern new (if found then length pattern - 1 else 0) text in
    if found then new ++ rest else c ∷ rest

abbrev pub or_else : Text → Text → Text
or_else default s = if is_empty s then default else s

abbrev pub safe : Text → Text
safe s = map (λ c. if is_name_char c then c else b'-') s

abbrev pub strip_dashes : Text → Text
strip_dashes s = strip_by (λ c. c == b'-') s

unfoldable pub branch_to_slug : Text → Text
branch_to_slug branch =
    or_else (str "branch") (strip_dashes (take 40 (safe (or_else (str "branch") branch))))

unfoldable pub make_task_branch_name : Text → Task Text
make_task_branch_name repo_name =
    let slug =
      or_else (str "repo") (strip_dashes (take 30 (safe (or_else (str "repo") repo_name)))) in
    ask timestamp >>= λ ts. pass (str "task/" ++ slug ++ str "/" ++ ts)

unfoldable pub make_worker_branch_name : Text → Text → Task Text
make_worker_branch_name task_branch agent =
    let safe_agent = or_else (str "agent") (strip_dashes (safe (or_else (str "agent") agent))) in
    ask uuid_hex >>= λ hex. pass (task_branch ++ str "-" ++ safe_agent ++ str "-" ++ take 8 hex)

-- `str(exc)`
unfoldable pub message : Failure → Text
message (worktree_error t) = t
message (orchestrator_error t) = t
message (value_error t) = t
message (other_error t) = t
message cancelled = []

unfoldable pub send_all : List Text → Task Unit
send_all texts = for_each (λ text. ask (send text)) texts

abbrev pub failed_result : Text → Text → Text → AgentResult
failed_result agent branch error = record {
  agent = agent;
  success = false;
  branch = branch;
  files_changed = 0;
  summary = [];
  error = error;
}

unfoldable pub commit_dirty_worktree : Text → Text → Task Bool
commit_dirty_worktree wt_path agent = do
  status ← ask (git_output wt_path (str "status" ∷ str "--porcelain" ∷ []))
  if is_empty (strip status) then pass false else (do
    ask (git_output wt_path (str "add" ∷ str "-A" ∷ []))
    ask (
        git_output wt_path (
          str "-c"
          ∷ str "user.name=pycodebridge"
          ∷ str "-c"
          ∷ str "user.email=pycodebridge@localhost"
          ∷ str "commit"
          ∷ str "-m"
          ∷ (str "Preserve @" ++ agent ++ str " dispatch changes")
          ∷ []))
    pass true)

abbrev count_lines : ℤ × Text → ℕ
count_lines (pos zero, out) = length (keep (λ l. not (is_empty (strip l))) (splitlines out))
count_lines (rc, out) = 0

-- `except Exception`
abbrev pub unless_cancelled : {A : Type 0} → (Failure → Task A) → Failure → Task A
unless_cancelled handler cancelled = fail cancelled
unless_cancelled handler e = handler e

-- Its process, and what is left of it on a time-out, is in Dispatch.Process.count_changed.
unfoldable pub count_changed_files : Text → Text → Task ℕ
count_changed_files wt_path base_branch =
    try_else (ask (git_diff wt_path base_branch)) (λ r. pass (count_lines r))
      (unless_cancelled (λ e. pass 0))

abbrev pub is_zero : ℤ → Bool
is_zero (pos n) = n == 0
is_zero (negsuc n) = false

abbrev show_int : ℤ → Text
show_int (pos n) = show n
show_int (negsuc n) = b'-' ∷ show (n + 1)

-- The last `k` elements: `xs[-k:]`.
abbrev last_of : ℕ → List Text → List Text
last_of k xs = drop (length xs - k) xs

abbrev summary_of : Exit → Text
summary_of r = join (newline ∷ []) (last_of 3 r.output_lines)

abbrev error_of : Exit → Text
error_of r =
    if ltb 0 (length r.stderr_lines)
    then join (newline ∷ []) (last_of 1 r.stderr_lines)
    else or_else (str "exit code " ++ show_int r.rc) (summary_of r)

abbrev result_of : Text → Text → Exit → ℕ → AgentResult
result_of agent branch r files_changed = record {
  agent = agent;
  success = is_zero r.rc;
  branch = branch;
  files_changed = files_changed;
  summary = summary_of r;
  error = (if is_zero r.rc then [] else error_of r);
}

-- What is done with the changes of an agent.
abbrev count_changes : Text → Text → Text → Bool → Task ℕ
count_changes agent wt_path branch success =
    if success
    then commit_dirty_worktree wt_path agent >> count_changed_files wt_path branch
    else pass 0

-- The body of the `try` block that holds a worktree.
unfoldable pub run_in : Text → Text → Text → Text → Text → Task AgentResult
run_in agent wt_path branch worker_branch prompt = do
  r ← ask (run_agent agent wt_path prompt)
  files_changed ← count_changes agent wt_path branch (is_zero r.rc)
  pass (result_of agent worker_branch r files_changed)

-- `except WorktreeError`, `except OrchestratorError` and `except ValueError`
abbrev pub on_worktree_error : {A : Type 0} → (Text → Task A) → Failure → Task A
on_worktree_error handler (worktree_error t) = handler t
on_worktree_error handler e = fail e

abbrev pub on_orchestrator_error : {A : Type 0} → (Text → Task A) → Failure → Task A
on_orchestrator_error handler (orchestrator_error t) = handler t
on_orchestrator_error handler e = fail e

abbrev pub on_value_error : {A : Type 0} → (Text → Task A) → Failure → Task A
on_value_error handler (value_error t) = handler t
on_value_error handler e = fail e

-- From the worktree that was created to its removal.
unfoldable pub with_worktree : Text → Text → Text → Text → Text → Task AgentResult
with_worktree agent branch worker_branch prompt wt_path =
    finally
      (try_else (run_in agent wt_path branch worker_branch prompt) pass
        (unless_cancelled (λ e. pass (failed_result agent worker_branch (message e)))))
      (ask (remove wt_path))

unfoldable pub ensure_task_branch : Text → Text → Task Text
ensure_task_branch task_branch repo_path =
    try_else
      (ask (create repo_path (branch_to_slug task_branch) [] task_branch []) >>= λ wt_path.
        ask (remove wt_path))
      (λ _. pass task_branch) (on_worktree_error (λ e. fail (orchestrator_error e)))

module _ (cfg : Settings) where
  abbrev create_for : Text → Text → Text → Text → Text → Text → Task AgentResult
  create_for agent repo_path branch base_branch worker_branch prompt =
      try_else
        (ask (
          create repo_path (branch_to_slug branch ++ str "-" ++ agent) base_branch worker_branch
            cfg.symlink_dirs))
        (with_worktree agent branch worker_branch prompt)
        (on_worktree_error (λ e. pass (failed_result agent [] e)))

  unfoldable pub run_backend : Text → Text → Text → Text → Bool → Task AgentResult
  run_backend agent repo_path branch prompt branch_is_base =
      try_else (ask (build_backend agent))
        (λ _. if branch_is_base then create_for agent repo_path branch [] branch prompt else (do
          worker_branch ← make_worker_branch_name branch agent
          create_for agent repo_path branch branch worker_branch prompt))
        (on_value_error (λ e. pass (failed_result agent [] e)))

  unfoldable pub run_worker : Text → Text → Text → Text → Task AgentResult
  run_worker repo_path task_branch prompt agent = do
    send_all (on_agent_start cfg.output_mode agent)
    run_backend agent repo_path task_branch prompt false
