-- ===== src/Dispatch/Orchestrator/Run/Results.antt =====
-- The results that a dispatch reports.
use pycodebridge.Base.{ℕ, ltb, ◌≡◌, refl, Bool, true, false, ◌&&◌, List, [], ◌∷◌, map, length}
use pycodebridge.Base.Text.{Text}
use pycodebridge.Dispatch.Output.{AgentResult}
use pycodebridge.Dispatch.Program.{
  Failure, worktree_error, orchestrator_error, value_error, other_error, cancelled, Outcome,
  returned, raised, remove, Exit, Event, Answers, Task, ask, pass, ◌>>=◌, collect_each,
}
use pycodebridge.Dispatch.Orchestrator.{
  Settings, message, failed_result, result_of, is_zero, count_changes, unless_cancelled,
  on_worktree_error, on_value_error, run_in, with_worktree, create_for, run_backend, run_worker,
}
use pycodebridge.Dispatch.Orchestrator.Run.{add_result, gathered, together, work_all}
use pycodebridge.Dispatch.Program.Yields.{
  Returns, Yields, all-Returns, bind-Yields, chain-Yields, try-Yields, try_same-Yields, if-Yields,
  finally-Yields,
}

-- The result of this agent: a success has no error, and a failure no changed files.
pub record IsResultOf (agent : Text) (r : AgentResult) : Type 0 where
  pub agent_same : r.agent ≡ agent
  pub no_error : r.success ≡ true → r.error ≡ []
  pub no_files : r.success ≡ false → r.files_changed ≡ 0

-- One result for each agent, in the order of the agents.
abbrev pub AreResultsOf : List Text → List AgentResult → Type 0
AreResultsOf [] [] = Unit
AreResultsOf (a ∷ agents) (r ∷ rs) = IsResultOf a r × AreResultsOf agents rs
AreResultsOf [] (r ∷ rs) = ⊥
AreResultsOf (a ∷ agents) [] = ⊥

unless_cancelled-Yields :
    {A : Type 0} (P : A → Type 0) (f : Failure → Task A)
    → ((e : Failure) → Yields P (f e))
    → (e : Failure) → Yields P (unless_cancelled f e)
unless_cancelled-Yields P f ft (worktree_error t) = ft (worktree_error t)
unless_cancelled-Yields P f ft (orchestrator_error t) = ft (orchestrator_error t)
unless_cancelled-Yields P f ft (value_error t) = ft (value_error t)
unless_cancelled-Yields P f ft (other_error t) = ft (other_error t)
unless_cancelled-Yields P f ft cancelled = λ answers h. tt

on_worktree_error-Yields :
    {A : Type 0} (P : A → Type 0) (f : Text → Task A)
    → ((t : Text) → Yields P (f t))
    → (e : Failure) → Yields P (on_worktree_error f e)
on_worktree_error-Yields P f ft (worktree_error t) = ft t
on_worktree_error-Yields P f ft (orchestrator_error t) = λ answers h. tt
on_worktree_error-Yields P f ft (value_error t) = λ answers h. tt
on_worktree_error-Yields P f ft (other_error t) = λ answers h. tt
on_worktree_error-Yields P f ft cancelled = λ answers h. tt

on_value_error-Yields :
    {A : Type 0} (P : A → Type 0) (f : Text → Task A)
    → ((t : Text) → Yields P (f t))
    → (e : Failure) → Yields P (on_value_error f e)
on_value_error-Yields P f ft (value_error t) = ft t
on_value_error-Yields P f ft (orchestrator_error t) = λ answers h. tt
on_value_error-Yields P f ft (worktree_error t) = λ answers h. tt
on_value_error-Yields P f ft (other_error t) = λ answers h. tt
on_value_error-Yields P f ft cancelled = λ answers h. tt

failed-IsResultOf : (a b e : Text) → IsResultOf a (failed_result a b e)
failed-IsResultOf a b e = record { agent_same = refl; no_error = λ s. cc; no_files = λ s. refl }

-- A run without success counts no changed files.
counted-IsResultOf :
    (a wb : Text) (r : Exit) (n : ℕ)
    → (is_zero r.rc ≡ false → n ≡ 0)
    → IsResultOf a (result_of a wb r n)
counted-IsResultOf a wb r n z = record {
  agent_same = refl;
  no_error = λ s. rw s refl;
  no_files = z;
}

count_changes-none :
    (a w b : Text) (z : Bool) → Yields (λ n. z ≡ false → n ≡ 0) (count_changes a w b z)
count_changes-none a w b true answers h = all-Returns (λ n. true ≡ false → n ≡ 0) (λ n e. cc) _
count_changes-none a w b false answers h = λ e. refl

run_in-IsResultOf : (a w b wb q : Text) → Yields (IsResultOf a) (run_in a w b wb q)
unfolding run_in
run_in-IsResultOf a w b wb q = bind-Yields (IsResultOf a) _ _ (λ r.
    chain-Yields (λ n. is_zero r.rc ≡ false → n ≡ 0) (IsResultOf a) _
      (λ n. pass (result_of a wb r n)) (count_changes-none a w b (is_zero r.rc))
      (λ n z answers h. counted-IsResultOf a wb r n z))

with_worktree-IsResultOf :
    (a b wb q path : Text) → Yields (IsResultOf a) (with_worktree a b wb q path)
unfolding with_worktree
with_worktree-IsResultOf a b wb q path = finally-Yields (IsResultOf a) _ (ask (remove path)) (
    try_same-Yields (IsResultOf a) _ _ (run_in-IsResultOf a path b wb q) (
      unless_cancelled-Yields (IsResultOf a) (λ e. pass (failed_result a wb (message e)))
        (λ e answers h. failed-IsResultOf a wb (message e))))

module _ (cfg : Settings) where
  create_for-IsResultOf :
      (a r b bb wb q : Text) → Yields (IsResultOf a) (create_for cfg a r b bb wb q)
  create_for-IsResultOf a r b bb wb q =
      try-Yields (IsResultOf a) _ _ _ (with_worktree-IsResultOf a b wb q) (
        on_worktree_error-Yields (IsResultOf a) (λ e. pass (failed_result a [] e))
          (λ e answers h. failed-IsResultOf a [] e))

  run_backend-IsResultOf :
      (a r b q : Text) (is_base : Bool) → Yields (IsResultOf a) (run_backend cfg a r b q is_base)
  unfolding run_backend
  run_backend-IsResultOf a r b q is_base =
      try-Yields (IsResultOf a) _ _ _
        (λ _.
          if-Yields (IsResultOf a) is_base _ _ (create_for-IsResultOf a r b [] b q)
            (bind-Yields (IsResultOf a) _ _ (λ wb. create_for-IsResultOf a r b b wb q)))
        (on_value_error-Yields (IsResultOf a) (λ e. pass (failed_result a [] e))
          (λ e answers h. failed-IsResultOf a [] e))

  run_worker-IsResultOf : (r b q a : Text) → Yields (IsResultOf a) (run_worker cfg r b q a)
  unfolding run_worker
  run_worker-IsResultOf r b q a =
      bind-Yields (IsResultOf a) _ _ (λ _. run_backend-IsResultOf a r b q false)

  collect_each-AreResultsOf :
      (r b q : Text) (agents : List Text)
      → Yields (AreResultsOf agents) (collect_each (run_worker cfg r b q) agents)
  unfolding collect_each
  collect_each-AreResultsOf r b q [] = λ answers h. tt
  collect_each-AreResultsOf r b q (a ∷ agents) =
      chain-Yields (IsResultOf a) (AreResultsOf (a ∷ agents)) _
        (λ y. collect_each (run_worker cfg r b q) agents >>= λ ys. pass (y ∷ ys))
        (run_worker-IsResultOf r b q a)
        (λ y yt.
          chain-Yields (AreResultsOf agents) (AreResultsOf (a ∷ agents)) _ (λ ys. pass (y ∷ ys))
            (collect_each-AreResultsOf r b q agents) (λ ys yst answers h. (yt, yst)))

  add_result-AreResultsOf :
      (a : Text) (y : AgentResult) (agents : List Text) (o : Outcome (List AgentResult))
      → IsResultOf a y
      → Returns (AreResultsOf agents) o
      → Returns (AreResultsOf (a ∷ agents)) (add_result y o)
  add_result-AreResultsOf a y agents (returned ys) yt t = (yt, t)
  add_result-AreResultsOf a y agents (raised e) yt t = tt

  gathered_next :
      (a : Text) (agents : List Text) (x : Outcome AgentResult × List Event)
      (runs : List (Outcome AgentResult × List Event))
      → Returns (IsResultOf a) x.0
      → Returns (AreResultsOf agents) (gathered runs)
      → Returns (AreResultsOf (a ∷ agents)) (gathered (x ∷ runs))
  unfolding gathered
  gathered_next a agents (returned y, h) runs yt t =
      add_result-AreResultsOf a y agents (gathered runs) yt t
  gathered_next a agents (raised e, h) runs yt t = tt

  module _ (answers_of : Text → Answers) (schedule : List (List Event) → List Event) where
    gathered-AreResultsOf :
        (r b q : Text) (agents : List Text)
        → Returns
            (AreResultsOf agents)
            (gathered (map (λ a. run_worker cfg r b q a (answers_of a) []) agents))
    unfolding gathered
    gathered-AreResultsOf r b q [] = tt
    gathered-AreResultsOf r b q (a ∷ agents) =
        gathered_next a agents (run_worker cfg r b q a (answers_of a) []) _
          (run_worker-IsResultOf r b q a (answers_of a) []) (gathered-AreResultsOf r b q agents)

    -- The workers of a dispatch return, if they do not raise, one result for each agent in the order
    -- of the agents, whether they work together or in turn: a success carries no error, a failure
    -- counts no changed files.
    pub results_in_order :
        (repo_path task_branch prompt : Text) (is_fanout : Bool) (agents : List Text)
        → Yields (AreResultsOf agents) (
            work_all answers_of schedule is_fanout
              (run_worker cfg repo_path task_branch prompt)
              agents)
    unfolding work_all together
    results_in_order r b q fan agents =
        if-Yields (AreResultsOf agents) (fan && ltb 1 (length agents)) _ _
          (λ answers h. gathered-AreResultsOf r b q agents) (collect_each-AreResultsOf r b q agents)
