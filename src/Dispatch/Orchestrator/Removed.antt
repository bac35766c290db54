-- ===== src/Dispatch/Orchestrator/Removed.antt =====
-- The parts of a dispatch ask for one removal of every worktree that `create` returned to them.
use pycodebridge.Base.{ℕ, refl, arith, Bool, true, false, List, []}
use pycodebridge.Base.Text.{Text, is_empty, strip}
use pycodebridge.Dispatch.Output.{AgentResult}
use pycodebridge.Dispatch.Program.{
  Failure, worktree_error, orchestrator_error, value_error, other_error, cancelled, remove,
  timestamp, uuid_hex, send, build_backend, run_agent, git_output, git_diff, Task, ask, pass, fail,
}
use pycodebridge.Dispatch.Orchestrator.{
  Settings, message, failed_result, unless_cancelled, on_worktree_error, on_value_error,
  on_orchestrator_error, send_all, make_task_branch_name, make_worker_branch_name,
  commit_dirty_worktree, count_changed_files, is_zero, run_in, with_worktree, create_for,
  run_backend, run_worker, ensure_task_branch,
}
use pycodebridge.Dispatch.Orchestrator.Worktrees.{
  Tidy, Removing, ask-Tidy, pass-Tidy, remove-Removing, bind-Tidy, try-Tidy, finally-Removing,
  create-Tidy, create_then-Tidy, if-Tidy, for_each-Tidy,
}

module _ (p : Text) where
  fail-Tidy : (A : Type 0) (e : Failure) → Tidy {A = A} p (fail e)
  fail-Tidy A e answers h = omega arith

  unless_cancelled-Tidy :
      {A : Type 0} (f : Failure → Task A)
      → ((e : Failure) → Tidy p (f e))
      → (e : Failure) → Tidy p (unless_cancelled f e)
  unless_cancelled-Tidy f ft (worktree_error t) = ft (worktree_error t)
  unless_cancelled-Tidy f ft (orchestrator_error t) = ft (orchestrator_error t)
  unless_cancelled-Tidy f ft (value_error t) = ft (value_error t)
  unless_cancelled-Tidy f ft (other_error t) = ft (other_error t)
  unless_cancelled-Tidy {A = A} f ft cancelled = fail-Tidy A cancelled

  on_worktree_error-Tidy :
      {A : Type 0} (f : Text → Task A)
      → ((t : Text) → Tidy p (f t))
      → (e : Failure) → Tidy p (on_worktree_error f e)
  on_worktree_error-Tidy f ft (worktree_error t) = ft t
  on_worktree_error-Tidy {A = A} f ft (orchestrator_error t) = fail-Tidy A (orchestrator_error t)
  on_worktree_error-Tidy {A = A} f ft (value_error t) = fail-Tidy A (value_error t)
  on_worktree_error-Tidy {A = A} f ft (other_error t) = fail-Tidy A (other_error t)
  on_worktree_error-Tidy {A = A} f ft cancelled = fail-Tidy A cancelled

  pub send_all-Tidy : (texts : List Text) → Tidy p (send_all texts)
  unfolding send_all
  send_all-Tidy texts = for_each-Tidy p (λ t. ask (send t)) (λ t. ask-Tidy p (send t) refl) texts

  commit_dirty_worktree-Tidy : (w a : Text) → Tidy p (commit_dirty_worktree w a)
  unfolding commit_dirty_worktree
  commit_dirty_worktree-Tidy w a = bind-Tidy p _ _ (ask-Tidy p (git_output w _) refl) (λ s.
      if-Tidy p (is_empty (strip s)) _ _ (pass-Tidy p Bool false) (
        bind-Tidy p _ _ (ask-Tidy p (git_output w _) refl)
          (λ _. bind-Tidy p _ _ (ask-Tidy p (git_output w _) refl) (λ _. pass-Tidy p Bool true))))

  count_changed_files-Tidy : (w b : Text) → Tidy p (count_changed_files w b)
  unfolding count_changed_files
  count_changed_files-Tidy w b =
      try-Tidy p _ _ _ (ask-Tidy p (git_diff w b) refl) (λ r. pass-Tidy p ℕ 0)
        (unless_cancelled-Tidy (λ e. pass 0) (λ e. pass-Tidy p ℕ 0))

  run_in-Tidy :
      (agent wt_path branch worker_branch prompt : Text)
      → Tidy p (run_in agent wt_path branch worker_branch prompt)
  unfolding run_in
  run_in-Tidy a w b wb q = bind-Tidy p _ _ (ask-Tidy p (run_agent a w q) refl) (λ r.
      bind-Tidy p _ _
        (if-Tidy p (is_zero r.rc) _ _
          (bind-Tidy p _ _ (commit_dirty_worktree-Tidy w a) (λ _. count_changed_files-Tidy w b))
          (pass-Tidy p ℕ 0))
        (λ n. pass-Tidy p AgentResult (failed_result [] [] [])))

  with_worktree-Removing :
      (agent branch worker_branch prompt path : Text)
      → Removing p path (with_worktree agent branch worker_branch prompt path)
  unfolding with_worktree
  with_worktree-Removing a b wb q path =
      finally-Removing p path _ (ask (remove path))
        (try-Tidy p _ _ _ (run_in-Tidy a path b wb q) (λ r. pass-Tidy p AgentResult r)
          (unless_cancelled-Tidy (λ e. pass (failed_result a wb (message e)))
            (λ e. pass-Tidy p AgentResult (failed_result [] [] []))))
        (remove-Removing p path)

  on_value_error-Tidy :
      {A : Type 0} (f : Text → Task A)
      → ((t : Text) → Tidy p (f t))
      → (e : Failure) → Tidy p (on_value_error f e)
  on_value_error-Tidy f ft (value_error t) = ft t
  on_value_error-Tidy {A = A} f ft (orchestrator_error t) = fail-Tidy A (orchestrator_error t)
  on_value_error-Tidy {A = A} f ft (worktree_error t) = fail-Tidy A (worktree_error t)
  on_value_error-Tidy {A = A} f ft (other_error t) = fail-Tidy A (other_error t)
  on_value_error-Tidy {A = A} f ft cancelled = fail-Tidy A cancelled

  pub on_orchestrator_error-Tidy :
      {A : Type 0} (f : Text → Task A)
      → ((t : Text) → Tidy p (f t))
      → (e : Failure) → Tidy p (on_orchestrator_error f e)
  on_orchestrator_error-Tidy f ft (orchestrator_error t) = ft t
  on_orchestrator_error-Tidy {A = A} f ft (value_error t) = fail-Tidy A (value_error t)
  on_orchestrator_error-Tidy {A = A} f ft (worktree_error t) = fail-Tidy A (worktree_error t)
  on_orchestrator_error-Tidy {A = A} f ft (other_error t) = fail-Tidy A (other_error t)
  on_orchestrator_error-Tidy {A = A} f ft cancelled = fail-Tidy A cancelled

  make_worker_branch_name-Tidy : (b a : Text) → Tidy p (make_worker_branch_name b a)
  unfolding make_worker_branch_name
  make_worker_branch_name-Tidy b a =
      bind-Tidy p _ _ (ask-Tidy p uuid_hex refl) (λ x. pass-Tidy p Text [])

  pub make_task_branch_name-Tidy : (r : Text) → Tidy p (make_task_branch_name r)
  unfolding make_task_branch_name
  make_task_branch_name-Tidy r =
      bind-Tidy p _ _ (ask-Tidy p timestamp refl) (λ x. pass-Tidy p Text [])

  pub ensure_task_branch-Tidy : (b r : Text) → Tidy p (ensure_task_branch b r)
  unfolding ensure_task_branch
  ensure_task_branch-Tidy b r =
      try-Tidy p _ (λ _. pass b) _
        (create_then-Tidy p r _ [] b [] _ (λ path. remove-Removing p path))
        (λ _. pass-Tidy p Text b)
        (on_worktree_error-Tidy (λ e. fail (orchestrator_error e))
          (λ e. fail-Tidy Text (orchestrator_error e)))

  module _ (cfg : Settings) where
    create_for-Tidy :
        (agent repo_path branch base_branch worker_branch prompt : Text)
        → Tidy p (create_for cfg agent repo_path branch base_branch worker_branch prompt)
    create_for-Tidy a r b bb wb q = create-Tidy p _ _ _ _ _ _ _ (with_worktree-Removing a b wb q) (
        on_worktree_error-Tidy (λ e. pass (failed_result a [] e))
          (λ e. pass-Tidy p AgentResult (failed_result [] [] [])))

    pub run_backend-Tidy :
        (agent repo_path branch prompt : Text) (branch_is_base : Bool)
        → Tidy p (run_backend cfg agent repo_path branch prompt branch_is_base)
    unfolding run_backend
    run_backend-Tidy a r b q is_base =
        try-Tidy p _ _ _ (ask-Tidy p (build_backend a) refl)
          (λ _. if-Tidy p is_base _ _ (create_for-Tidy a r b [] b q) (
            bind-Tidy p _ _ (make_worker_branch_name-Tidy b a)
              (λ wb. create_for-Tidy a r b b wb q)))
          (on_value_error-Tidy (λ e. pass (failed_result a [] e))
            (λ e. pass-Tidy p AgentResult (failed_result [] [] [])))

    pub run_worker-Tidy :
        (repo_path task_branch prompt agent : Text)
        → Tidy p (run_worker cfg repo_path task_branch prompt agent)
    unfolding run_worker
    run_worker-Tidy r b q a =
        bind-Tidy p _ _ (send_all-Tidy _) (λ _. run_backend-Tidy a r b q false)
