-- ===== src/Dispatch/Orchestrator/Run/Reported.antt =====
-- Every agent gets a result, whatever goes wrong in it.
use pycodebridge.Base.{ltb, ◌≡◌, refl, Bool, true, false, ◌&&◌, List, [], ◌∷◌, map, length}
use pycodebridge.Base.Text.{Text, is_empty, strip}
use pycodebridge.Dispatch.Output.{AgentResult}
use pycodebridge.Dispatch.Program.{
  Failure, worktree_error, orchestrator_error, value_error, other_error, cancelled, Outcome,
  returned, raised, send, remove, Event, Answers, Task, ask, pass, ◌>>=◌, collect_each,
}
use pycodebridge.Dispatch.Program.Yields.{Returns}
use pycodebridge.Dispatch.Program.Ends.{
  Ends, Never, IsWorktreeError, IsValueError, IsException, IsKind, Raises, bind-Raises, try-Raises,
  finally-Raises, if-Raises, for_each-Raises,
}
use pycodebridge.Dispatch.Orchestrator.{
  Settings, message, failed_result, is_zero, unless_cancelled, on_worktree_error, on_value_error,
  send_all, make_worker_branch_name, commit_dirty_worktree, count_changed_files, run_in,
  with_worktree, create_for, run_backend, run_worker,
}
use pycodebridge.Dispatch.Orchestrator.Run.{add_result, gathered, together, work_all}
use pycodebridge.Dispatch.Orchestrator.Run.Results.{AreResultsOf, results_in_order}

-- A handler of `except Exception` whose body raises nothing.
caught :
    (answers : Answers) {A : Type 0} (f : Failure → Task A)
    → ((e : Failure) → Raises answers Never (f e))
    → (e : Failure) → IsException e
    → Raises answers Never (unless_cancelled f e)
caught answers f ft (worktree_error t) i = ft (worktree_error t)
caught answers f ft (orchestrator_error t) i = ft (orchestrator_error t)
caught answers f ft (value_error t) i = ft (value_error t)
caught answers f ft (other_error t) i = ft (other_error t)
caught answers f ft cancelled i = elim i [ ]

caught_worktree :
    (answers : Answers) {A : Type 0} (f : Text → Task A)
    → ((t : Text) → Raises answers Never (f t))
    → (e : Failure) → IsWorktreeError e
    → Raises answers Never (on_worktree_error f e)
caught_worktree answers f ft (worktree_error t) i = ft t
caught_worktree answers f ft (orchestrator_error t) i = elim i [ ]
caught_worktree answers f ft (value_error t) i = elim i [ ]
caught_worktree answers f ft (other_error t) i = elim i [ ]
caught_worktree answers f ft cancelled i = elim i [ ]

caught_value :
    (answers : Answers) {A : Type 0} (f : Text → Task A)
    → ((t : Text) → Raises answers Never (f t))
    → (e : Failure) → IsValueError e
    → Raises answers Never (on_value_error f e)
caught_value answers f ft (value_error t) i = ft t
caught_value answers f ft (orchestrator_error t) i = elim i [ ]
caught_value answers f ft (worktree_error t) i = elim i [ ]
caught_value answers f ft (other_error t) i = elim i [ ]
caught_value answers f ft cancelled i = elim i [ ]

-- A task that raises nothing raises no more than any other.
weaker : {A : Type 0} (o : Outcome A) → Ends Never o → Ends IsException o
weaker (returned a) e = tt
weaker (raised x) e = elim e [ ]

module _ (answers : Answers) (kind : IsKind answers) where
  send_all-Never : (texts : List Text) → Raises answers Never (send_all texts)
  unfolding send_all ask
  send_all-Never texts =
      for_each-Raises answers Never (λ t. ask (send t)) (λ t h. kind.sends h t) texts

  commit-IsException : (w a : Text) → Raises answers IsException (commit_dirty_worktree w a)
  unfolding commit_dirty_worktree ask
  commit-IsException w a =
      bind-Raises answers IsException _ _ (λ h. kind.gits h w _)
        (λ s.
          if-Raises answers IsException (is_empty (strip s)) (pass false) _ (λ h. tt)
            (bind-Raises answers IsException _ _ (λ h. kind.gits h w _)
              (λ _.
                bind-Raises answers IsException _ (λ _. pass true) (λ h. kind.gits h w _)
                  (λ _ h. tt))))

  count-Never : (w b : Text) → Raises answers IsException (count_changed_files w b)
  unfolding count_changed_files ask
  count-Never w b h = weaker _ (
      try-Raises answers IsException Never _ _ _ (λ h. kind.diffs h w b) (λ r h. tt)
        (caught answers (λ e. pass 0) (λ e h. tt)) h)

  run_in-IsException : (a w b wb q : Text) → Raises answers IsException (run_in a w b wb q)
  unfolding run_in ask
  run_in-IsException a w b wb q =
      bind-Raises answers IsException _ _ (λ h. kind.runs h a w q)
        (λ r.
          bind-Raises answers IsException _ _
            (if-Raises answers IsException (is_zero r.rc) _ (pass 0)
              (bind-Raises answers IsException _ _ (commit-IsException w a) (λ _. count-Never w b))
              (λ h. tt))
            (λ n h. tt))

  with_worktree-Never : (a b wb q path : Text) → Raises answers Never (with_worktree a b wb q path)
  unfolding with_worktree ask
  with_worktree-Never a b wb q path =
      finally-Raises answers Never _ (ask (remove path))
        (try-Raises answers IsException Never _ _ _ (run_in-IsException a path b wb q) (λ r h. tt)
          (caught answers (λ e. pass (failed_result a wb (message e))) (λ e h. tt)))
        (λ h. kind.removes h path)

  module _ (cfg : Settings) where
    create_for-Never : (a r b bb wb q : Text) → Raises answers Never (create_for cfg a r b bb wb q)
    unfolding ask
    create_for-Never a r b bb wb q =
        try-Raises answers IsWorktreeError Never _ _ _ (λ h. kind.creates h r _ bb wb _)
          (with_worktree-Never a b wb q)
          (caught_worktree answers (λ e. pass (failed_result a [] e)) (λ e h. tt))

    run_backend-Never : (a r b q : Text) → Raises answers Never (run_backend cfg a r b q false)
    unfolding run_backend ask make_worker_branch_name
    run_backend-Never a r b q =
        try-Raises answers IsValueError Never _ _ _ (λ h. kind.builds h a)
          (λ _.
            bind-Raises answers Never _ _ (bind-Raises answers Never _ _ kind.names (λ x h. tt))
              (λ wb. create_for-Never a r b b wb q))
          (caught_value answers (λ e. pass (failed_result a [] e)) (λ e h. tt))

    pub run_worker-Never : (r b q a : Text) → Raises answers Never (run_worker cfg r b q a)
    unfolding run_worker
    run_worker-Never r b q a =
        bind-Raises answers Never _ _ (send_all-Never _) (λ _. run_backend-Never a r b q)

    pub collect_each-Never :
        (r b q : Text) (agents : List Text)
        → Raises answers Never (collect_each (run_worker cfg r b q) agents)
    unfolding collect_each
    collect_each-Never r b q [] = λ h. tt
    collect_each-Never r b q (a ∷ agents) =
        bind-Raises answers Never _
          (λ y. collect_each (run_worker cfg r b q) agents >>= λ ys. pass (y ∷ ys))
          (run_worker-Never r b q a)
          (λ y.
            bind-Raises answers Never _ (λ ys. pass (y ∷ ys)) (collect_each-Never r b q agents)
              (λ ys h. tt))

-- What ends without an exception has what it returns.
have :
    {A : Type 0} (P : A → Type 0) (o : Outcome A)
    → Ends Never o
    → Returns P o
    → (a : A) × ((o ≡ returned a) × P a)
have P (returned a) e p = (a, (refl, p))
have P (raised x) e p = elim e [ ]

gathered-Never :
    (x : Outcome AgentResult × List Event) (runs : List (Outcome AgentResult × List Event))
    → Ends Never x.0
    → Ends Never (gathered runs)
    → Ends Never (gathered (x ∷ runs))
unfolding gathered
gathered-Never (returned y, h) runs xt t = added (gathered runs) t
  where
    added : (o : Outcome (List AgentResult)) → Ends Never o → Ends Never (add_result y o)
    added (returned ys) t = tt
    added (raised e) t = elim t [ ]
gathered-Never (raised e, h) runs xt t = elim xt [ ]

module _ (answers : Answers) (answers_of : Text → Answers)
    (schedule : List (List Event) → List Event) (cfg : Settings) where
  together-Never :
      ((a : Text) → IsKind (answers_of a))
      → (r b q : Text) (agents : List Text)
      → Ends Never (gathered (map (λ a. run_worker cfg r b q a (answers_of a) []) agents))
  unfolding gathered
  together-Never kinds r b q [] = tt
  together-Never kinds r b q (a ∷ agents) =
      gathered-Never (run_worker cfg r b q a (answers_of a) []) _
        (run_worker-Never (answers_of a) (kinds a) cfg r b q a [])
        (together-Never kinds r b q agents)

  -- Whatever an agent or git raises in a worker, and whether its backend can be built and its worktree
  -- created or not, the workers of a dispatch return one result for each agent, in the order of the
  -- agents, together or in turn: a success carries no error, and a failure counts no changed files.
  -- Messages go through, worktrees can be removed, and nothing is cancelled.
  pub every_agent_reported :
      IsKind answers
      → ((a : Text) → IsKind (answers_of a))
      → (repo_path task_branch prompt : Text) (is_fanout : Bool) (agents : List Text)
        (h : List Event)
      → (rs : List AgentResult) × (((work_all answers_of schedule is_fanout
              (run_worker cfg repo_path task_branch prompt)
              agents
              answers
              h).0
            ≡ returned rs)
          × AreResultsOf agents rs)
  unfolding work_all together
  every_agent_reported kind kinds r b q fan agents h =
      have (AreResultsOf agents) _
        (if-Raises answers Never (fan && ltb 1 (length agents)) _ _
          (λ h. together-Never kinds r b q agents)
          (collect_each-Never answers kind cfg r b q agents) h)
        (results_in_order cfg answers_of schedule r b q fan agents answers h)
