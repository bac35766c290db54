-- ===== src/Dispatch/Orchestrator/Run.antt =====
-- `run` of codebridge/dispatch/orchestrator.py, from the task branch to the report.
pub mod Removed
pub mod Reported
pub mod Results
use pycodebridge.Base.{
  ℕ, ltb, Bool, true, not, ◌&&◌, List, [], ◌∷◌, ◌++◌, Option, none, some, keep, map, length,
  if◌then◌else◌,
}
use pycodebridge.Base.Text.{Text, str, text_eq, is_empty, strip, join}
use pycodebridge.Util.Chunk.{newline}
use pycodebridge.Dispatch.Output.{AgentResult, on_agent_start, on_agent_done, on_all_done}
use pycodebridge.Dispatch.Parser.{DispatchSpec}
use pycodebridge.Dispatch.Program.{
  Outcome, returned, raised, get_branch, set_branch, send, Event, Answers, Task, ask, pass, ◌>>=◌,
  ◌>>◌, try_else, for_each, collect_each,
}
use pycodebridge.Dispatch.Orchestrator.{
  Settings, replace_from, or_else, make_task_branch_name, send_all, on_orchestrator_error,
  run_backend, run_worker, ensure_task_branch,
}

abbrev replace : Text → Text → Text → Text
replace pattern new text = replace_from pattern new 0 text

abbrev pub is_claude : Text → Bool
is_claude agent = text_eq agent (str "claude")

abbrev dispatch_error : {A : Type 0} → Text → Task (Option A)
dispatch_error e = ask (send (str "Dispatch error: " ++ e)) >> pass none

-- "all agents except claude when orchestrated"
unfoldable pub workers_of : DispatchSpec → List Text
workers_of spec = keep (λ a. not (spec.is_orchestrated && is_claude a)) spec.agents

unfoldable pub worker_prompt : DispatchSpec → Text → Text
worker_prompt spec plan_text =
    if is_empty plan_text
    then spec.prompt
    else strip (spec.prompt ++ newline ∷ newline ∷ str "Orchestrator plan:" ++ newline ∷ plan_text)

abbrev add_result : {A : Type 0} → A → Outcome (List A) → Outcome (List A)
add_result a (returned results) = returned (a ∷ results)
add_result a (raised e) = raised e

-- `asyncio.gather`: the results in the order of the tasks, or an exception of one of them.
unfoldable pub gathered : {A : Type 0} → List (Outcome A × List Event) → Outcome (List A)
gathered [] = returned []
gathered ((returned a, h) ∷ runs) = add_result a (gathered runs)
gathered ((raised e, h) ∷ runs) = raised e

abbrev planned : Text → AgentResult → Task (Option (Text × Text))
planned task_branch result =
    if result.success
    then pass (some (result.summary, task_branch))
    else ask (send (str "Planning step failed: " ++ or_else (str "unknown error") result.error))
      >> pass none

-- The task branch of the session, or a new name.
abbrev branch_for : Text → Text → Task Text
branch_for repo_name task_branch =
    if is_empty task_branch then make_task_branch_name repo_name else pass task_branch

-- How the calls of concurrent tasks are answered, by agent, and how they are ordered: what
-- `asyncio` decides.
module _ (answers_of : Text → Answers) (schedule : List (List Event) → List Event) where
  unfoldable pub together : (Text → Task AgentResult) → List Text → Task (List AgentResult)
  together work workers answers h =
      let runs = map (λ agent. work agent (answers_of agent) []) workers in
      (gathered runs, schedule (map (λ r. r.1) runs) ++ h)

  unfoldable pub work_all : Bool → (Text → Task AgentResult) → List Text → Task (List AgentResult)
  work_all is_fanout work workers =
      if is_fanout && ltb 1 (length workers)
      then together work workers
      else collect_each work workers

module _ (cfg : Settings) where
  unfoldable pub run_planning_step :
      (task_branch repo_path : Text) → DispatchSpec → Task (Option (Text × Text))
  run_planning_step task_branch repo_path spec =
      let worker_agents = keep (λ a. not (is_claude a)) spec.agents in
      let plan_prompt =
        replace (str "{{AGENTS}}") (join (str ", ") worker_agents)
          (replace (str "{{USER_REQUEST}}") spec.prompt cfg.plan_prompt) in
      send_all (on_agent_start cfg.output_mode (str "claude"))
      >> try_else (ensure_task_branch task_branch repo_path)
          (λ branch. do
            result ← run_backend cfg (str "claude") repo_path branch plan_prompt true
            send_all (on_agent_done cfg.output_mode result)
            planned branch result)
          (on_orchestrator_error dispatch_error)

  -- The plan, empty without a planning step, and the task branch that exists now.
  unfoldable pub prepare :
      (channel_id session repo_path repo_name : Text) → DispatchSpec → Task (Option (Text × Text))
  prepare channel_id session repo_path repo_name spec = do
    stored ← ask (get_branch channel_id session)
    task_branch ← branch_for repo_name stored
    if spec.is_orchestrated
        then run_planning_step task_branch repo_path spec
        else try_else (ensure_task_branch task_branch repo_path) (λ b. pass (some ([], b)))
            (on_orchestrator_error dispatch_error)

  unfoldable pub report : List AgentResult → Task Unit
  report results =
      for_each (λ r. send_all (on_agent_done cfg.output_mode r)) results
      >> send_all (on_all_done cfg.output_mode results)

  module _ (answers_of : Text → Answers) (schedule : List (List Event) → List Event) where
    unfoldable pub run_workers : (repo_path : Text) → DispatchSpec → Text × Text → Task Unit
    run_workers repo_path spec (plan_text, task_branch) =
        let work = run_worker cfg repo_path task_branch (worker_prompt spec plan_text) in
        let workers = workers_of spec in
        if ltb 0 (length workers)
        then work_all answers_of schedule spec.is_fanout work workers >>= report
        else pass tt

    abbrev dispatched :
        (channel_id session repo_path : Text) → DispatchSpec → Option (Text × Text) → Task Unit
    dispatched channel_id session repo_path spec none = pass tt
    dispatched channel_id session repo_path spec (some (plan_text, task_branch)) =
        ask (set_branch channel_id session task_branch)
        >> run_workers repo_path spec (plan_text, task_branch)

    unfoldable pub run : (channel_id session repo_path repo_name : Text) → DispatchSpec → Task Unit
    run channel_id session repo_path repo_name spec =
        prepare channel_id session repo_path repo_name spec
        >>= dispatched channel_id session repo_path spec
