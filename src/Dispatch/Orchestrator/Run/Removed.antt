-- ===== src/Dispatch/Orchestrator/Run/Removed.antt =====
-- The worktrees of a whole dispatch, with agents at work one after the other or together.
use pycodebridge.Base.{
  ltb, ◌≡◌, refl, arith, ◌+◌, Bool, true, ◌&&◌, List, [], ◌∷◌, Option, none, some, map, length,
}
use pycodebridge.Base.Text.{Text, str, is_empty}
use pycodebridge.Dispatch.Output.{AgentResult, on_agent_done}
use pycodebridge.Dispatch.Parser.{DispatchSpec}
use pycodebridge.Dispatch.Program.{get_branch, set_branch, send, Event, Answers, Task, pass}
use pycodebridge.Dispatch.Program.Traces.{
  count, total, Interleaved, count-Interleaved, count-append,
}
use pycodebridge.Dispatch.Orchestrator.{Settings, send_all, run_worker}
use pycodebridge.Dispatch.Orchestrator.Run.{
  dispatch_error, workers_of, worker_prompt, planned, run_planning_step, prepare, report, together,
  work_all, run_workers, dispatched, run,
}
use pycodebridge.Dispatch.Orchestrator.Worktrees.{
  is_created, is_remove, is_removed, is_left, count-is_remove, Tidy, ask-Tidy, pass-Tidy, bind-Tidy,
  try-Tidy, if-Tidy, for_each-Tidy, collect_each-Tidy,
}
use pycodebridge.Dispatch.Orchestrator.Removed.{
  send_all-Tidy, on_orchestrator_error-Tidy, make_task_branch_name-Tidy, ensure_task_branch-Tidy,
  run_backend-Tidy, run_worker-Tidy,
}

module _ (p : Text) where
  dispatch_error-Tidy : (A : Type 0) (e : Text) → Tidy p (dispatch_error {A = A} e)
  dispatch_error-Tidy A e =
      bind-Tidy p _ (λ _. pass none) (ask-Tidy p (send _) refl) (λ _. pass-Tidy p (Option A) none)

  planned-Tidy : (b : Text) (r : AgentResult) → Tidy p (planned b r)
  planned-Tidy b r = if-Tidy p r.success _ _ (pass-Tidy p (Option (Text × Text)) none) (
      bind-Tidy p _ (λ _. pass none) (ask-Tidy p (send _) refl)
        (λ _. pass-Tidy p (Option (Text × Text)) none))

  module _ (cfg : Settings) where
    run_planning_step-Tidy :
        (b r : Text) (spec : DispatchSpec) → Tidy p (run_planning_step cfg b r spec)
    unfolding run_planning_step
    run_planning_step-Tidy b r spec = bind-Tidy p _ _ (send_all-Tidy p _) (λ _.
        try-Tidy p _ _ _ (ensure_task_branch-Tidy p b r)
          (λ b'.
            bind-Tidy p _ _ (run_backend-Tidy p cfg (str "claude") r b' _ true)
              (λ res. bind-Tidy p _ _ (send_all-Tidy p _) (λ _. planned-Tidy b' res)))
          (on_orchestrator_error-Tidy p dispatch_error (dispatch_error-Tidy (Text × Text))))

    prepare-Tidy : (c s r n : Text) (spec : DispatchSpec) → Tidy p (prepare cfg c s r n spec)
    unfolding prepare
    prepare-Tidy c s r n spec = bind-Tidy p _ _ (ask-Tidy p (get_branch c s) refl) (λ stored.
        bind-Tidy p _ _
          (if-Tidy p (is_empty stored) _ (pass stored) (make_task_branch_name-Tidy p n)
            (pass-Tidy p Text stored))
          (λ b. if-Tidy p spec.is_orchestrated _ _ (run_planning_step-Tidy b r spec) (
            try-Tidy p _ (λ b. pass (some ([], b))) _ (ensure_task_branch-Tidy p b r)
              (λ b. pass-Tidy p (Option (Text × Text)) none)
              (on_orchestrator_error-Tidy p dispatch_error (dispatch_error-Tidy (Text × Text))))))

    report-Tidy : (rs : List AgentResult) → Tidy p (report cfg rs)
    unfolding report
    report-Tidy rs =
        bind-Tidy p _ _
          (for_each-Tidy p (λ r. send_all (on_agent_done cfg.output_mode r))
            (λ r. send_all-Tidy p _) rs)
          (λ _. send_all-Tidy p _)

    module _ (answers_of : Text → Answers) (schedule : List (List Event) → List Event) where
      -- The traces of concurrent tasks.
      abbrev traces : (Text → Task AgentResult) → List Text → List (List Event)
      traces work workers = map (λ r. r.1) (map (λ agent. work agent (answers_of agent) []) workers)

      traces-total :
          (work : Text → Task AgentResult)
          → ((a : Text) → Tidy p (work a))
          → (workers : List Text)
          → total (map (count (is_created p)) (traces work workers))
            ≡ total (map (count (is_remove p)) (traces work workers))
      unfolding total count
      traces-total work wt [] = refl
      traces-total work wt (a ∷ workers) =
          let here = wt a (answers_of a) [] in
          let rest = traces-total work wt workers in omega arith

      together-Tidy :
          ((ts : List (List Event)) → Interleaved ts (schedule ts))
          → (work : Text → Task AgentResult) → ((a : Text) → Tidy p (work a))
          → (workers : List Text) → Tidy p (together answers_of schedule work workers)
      unfolding together
      together-Tidy sched work wt workers answers h =
          let ts = traces work workers in
          let made = count-Interleaved (is_created p) ts (schedule ts) (sched ts) in
          let gone = count-Interleaved (is_remove p) ts (schedule ts) (sched ts) in
          let made' = count-append (is_created p) (schedule ts) h in
          let gone' = count-append (is_remove p) (schedule ts) h in
          let same = traces-total work wt workers in omega arith

      work_all-Tidy :
          ((ts : List (List Event)) → Interleaved ts (schedule ts))
          → (fan : Bool) (work : Text → Task AgentResult) → ((a : Text) → Tidy p (work a))
          → (workers : List Text) → Tidy p (work_all answers_of schedule fan work workers)
      unfolding work_all
      work_all-Tidy sched fan work wt ws =
          if-Tidy p (fan && ltb 1 (length ws)) _ _ (together-Tidy sched work wt ws)
            (collect_each-Tidy p work wt ws)

      run_workers-Tidy :
          ((ts : List (List Event)) → Interleaved ts (schedule ts))
          → (r : Text) (spec : DispatchSpec) (plan b : Text)
          → Tidy p (run_workers cfg answers_of schedule r spec (plan, b))
      unfolding run_workers
      run_workers-Tidy sched r spec plan b =
          let work = run_worker cfg r b (worker_prompt spec plan) in
          let wt = λ (a : Text). run_worker-Tidy p cfg r b (worker_prompt spec plan) a in
          let ws = workers_of spec in
          if-Tidy p (ltb 0 (length ws)) _ (pass tt)
            (bind-Tidy p _ (report cfg) (work_all-Tidy sched spec.is_fanout work wt ws) report-Tidy)
            (pass-Tidy p Unit tt)

      dispatched-Tidy :
          ((ts : List (List Event)) → Interleaved ts (schedule ts))
          → (c s r : Text) (spec : DispatchSpec) (o : Option (Text × Text))
          → Tidy p (dispatched cfg answers_of schedule c s r spec o)
      dispatched-Tidy sched c s r spec none = pass-Tidy p Unit tt
      dispatched-Tidy sched c s r spec (some (plan, b)) =
          bind-Tidy p _ _ (ask-Tidy p (set_branch c s b) refl)
            (λ _. run_workers-Tidy sched r spec plan b)

      run-Tidy :
          ((ts : List (List Event)) → Interleaved ts (schedule ts))
          → (c s r n : Text) (spec : DispatchSpec)
          → Tidy p (run cfg answers_of schedule c s r n spec)
      unfolding run
      run-Tidy sched c s r n spec =
          bind-Tidy p _ (dispatched cfg answers_of schedule c s r spec) (prepare-Tidy c s r n spec)
            (dispatched-Tidy sched c s r spec)

      -- For every path, a dispatch asks for one removal of the worktree for each call of `create` that
      -- returned it: these calls are as many as the removals that returned and those that raised
      -- together. So when no removal of the path raises, those that returned are as many as the
      -- worktrees created there, whatever the other calls raise, cancellation included, and however
      -- `asyncio` interleaves the agents that work together; the order that it chooses keeps the
      -- order of each task's own calls. What a call of `create` that raised leaves on the disk is
      -- not counted.
      pub worktrees_removed :
          ((ts : List (List Event)) → Interleaved ts (schedule ts))
          → (channel_id session repo_path repo_name : Text) (spec : DispatchSpec)
            (answers : Answers)
          → let h =
              (run cfg answers_of schedule channel_id session repo_path repo_name spec answers
                []).1 in
            count (is_created p) h ≡ count (is_removed p) h + count (is_left p) h
      unfolding count
      worktrees_removed sched c s r n spec answers =
          let e = run-Tidy sched c s r n spec answers [] in
          let split = count-is_remove p (run cfg answers_of schedule c s r n spec answers []).1 in
          omega arith
