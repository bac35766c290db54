-- ===== src/Dispatch/Closer.antt =====
-- codebridge/dispatch/closer.py: the end of a task. The commands that it runs, the chat and the
-- store of the sessions are reached through `Effects`.
pub mod Outcome
pub mod Examples
use pycodebridge.Base.{
  ℕ, ◌==◌, Bool, true, false, not, ◌||◌, List, [], ◌∷◌, ◌++◌, Option, none, some, any, keep, map,
  if◌then◌else◌,
}
use pycodebridge.Base.Text.{Text, str, text_eq, is_empty, strip, lstrip, split, split_on}
use pycodebridge.Base.Text.Lines.{splitlines}
use pycodebridge.Dispatch.Program.{
  Failure, other_error, cancelled, Outcome as Result, returned, raised,
}
use pycodebridge.Sessions.State.{FileState}
use pycodebridge.Sessions.Stored.{get_task_branch, clear_task_branch}

-- A call with effects on the world outside. `TaskCloseError` is an `other_error` here: no handler
-- of the module tells it apart.
abbrev pub Act : Type 0 → Type 0 → Type 0
Act World A = World → Result A × World

-- `_git`, `_git_output` and `_gh_output` on a repository, `sink.send`, and the stored sessions.
pub record Effects (World : Type 0) : Type 0 where
  pub git : List Text → Act World Unit
  pub git_output : List Text → Act World Text
  pub gh_output : List Text → Act World Text
  pub send : Text → Act World Unit
  pub file : World → FileState
  pub write : FileState → World → World

abbrev line_break : Text
line_break = b'\n' ∷ []

abbrev last_of : List Text → Text
last_of [] = []
last_of (x ∷ []) = x
last_of (x ∷ y ∷ xs) = last_of (y ∷ xs)

unfoldable pub parse_close_mode : Text → Text → Text
parse_close_mode args default =
    let tokens = split args in
    if any (text_eq (str "--pr")) tokens
    then str "pr"
    else if any (text_eq (str "--merge")) tokens
    then str "merge"
    else default

-- `except Exception`
abbrev pub is_exception : Failure → Bool
is_exception cancelled = false
is_exception e = true

module _ {World : Type 0} where
  abbrev pub pass : {A : Type 0} → A → Act World A
  pass a w = (returned a, w)

  -- `return` of an exception: the rest is not run.
  abbrev pub next_of : {A B : Type 0} → (A → Act World B) → Result A × World → Result B × World
  next_of k (returned a, w) = k a w
  next_of k (raised e, w) = (raised e, w)

  unfoldable pub and_then : {A B : Type 0} → Act World A → (A → Act World B) → Act World B
  and_then act k w = next_of k (act w)

  -- `try: … except …: …`, where `caught` tells what the handler catches.
  abbrev pub or_on_raise :
      {A : Type 0} → (Failure → Bool) → (A → A) → A → Result A × World → Result A × World
  or_on_raise caught f a (returned b, w) = (returned (f b), w)
  or_on_raise caught f a (raised e, w) = if caught e then (returned a, w) else (raised e, w)

  unfoldable pub guarded : {A : Type 0} → (Failure → Bool) → Act World A → (A → A) → A → Act World A
  guarded caught act f a w = or_on_raise caught f a (act w)

module _ {World : Type 0} (fx : Effects World) where
  abbrev attempt : List Text → Act World Unit
  attempt args = guarded is_exception (fx.git args) (λ u. u) tt

  unfoldable pub open_pr : Text → Act World Unit
  open_pr task_branch = and_then (fx.git (str "push" ∷ str "origin" ∷ task_branch ∷ [])) (λ _.
      and_then (fx.git_output (str "log" ∷ str "-1" ∷ str "--pretty=%s" ∷ task_branch ∷ [])) (λ out.
        let title =
          (if is_empty (strip out) then str "Dispatch task: " ++ task_branch else strip out) in
        and_then
          (fx.gh_output (
            str "pr"
            ∷ str "create"
            ∷ str "--draft"
            ∷ str "--head"
            ∷ task_branch
            ∷ str "--title"
            ∷ title
            ∷ str "--body"
            ∷ (str "Created by pycodebridge dispatch."
                ++ line_break
                ++ line_break
                ++ str "Branch: `"
                ++ task_branch
                ++ str "`")
            ∷ []))
          (λ url.
            fx.send (str "📬 PR opened: " ++ strip url ++ str " — review and merge on GitHub"))))

  abbrev pub default_branch : Act World Text
  default_branch =
      guarded is_exception
        (fx.git_output (str "symbolic-ref" ∷ str "refs/remotes/origin/HEAD" ∷ []))
        (λ out.
          let name = last_of (split_on b'/' (strip out)) in
          if is_empty name then str "main" else name)
        (str "main")

  unfoldable pub merge : Text → Act World Unit
  merge task_branch = and_then default_branch (λ default.
      and_then (fx.git (str "checkout" ∷ default ∷ [])) (λ _.
        and_then
          (fx.git (
            str "merge"
            ∷ str "--no-ff"
            ∷ task_branch
            ∷ str "-m"
            ∷ (str "Merge dispatch task " ++ task_branch)
            ∷ []))
          (λ _. and_then (fx.git (str "push" ∷ str "origin" ∷ default ∷ [])) (λ _.
            and_then (attempt (str "branch" ∷ str "-d" ∷ task_branch ∷ [])) (λ _.
              and_then (attempt (str "push" ∷ str "origin" ∷ str "--delete" ∷ task_branch ∷ []))
                (λ _. fx.send (
                  str "✅ Merged `"
                  ++ task_branch
                  ++ str "` into `"
                  ++ default
                  ++ str "` and pushed.")))))))

  unfoldable pub delete_branches : List Text → Act World Unit
  delete_branches [] = pass tt
  delete_branches (branch ∷ branches) =
      let rest = delete_branches branches in
      if is_empty branch
      then rest
      else and_then (attempt (str "branch" ∷ str "-D" ∷ branch ∷ [])) (λ _.
        and_then (attempt (str "push" ∷ str "origin" ∷ str "--delete" ∷ branch ∷ [])) (λ _. rest))

  -- The names in the output of `git branch --list`.
  abbrev branch_names : Text → List Text
  branch_names out =
      map (λ b. lstrip (λ c. c == b'*' || c == b' ') (strip b))
        (keep (λ b. not (is_empty (strip b))) (splitlines out))

  abbrev cleanup_found : Result Text × World → Result Unit × World
  cleanup_found (returned out, w) = delete_branches (branch_names out) w
  cleanup_found (raised e, w) = if is_exception e then (returned tt, w) else (raised e, w)

  unfoldable pub cleanup_worker_branches : Text → Act World Unit
  cleanup_worker_branches task_branch w =
      cleanup_found (fx.git_output (str "branch" ∷ str "--list" ∷ (task_branch ++ str "-*") ∷ []) w)

  abbrev clear_stored : Text → Text → Act World Unit
  clear_stored channel_id session w =
      (returned tt, fx.write (clear_task_branch (fx.file w) channel_id session) w)

  unfoldable pub close : Text → Text → Text → Act World Unit
  close channel_id session mode w =
      let task_branch = get_task_branch (fx.file w) channel_id session in
      let ended = (if text_eq mode (str "merge") then merge task_branch else open_pr task_branch) in
      if is_empty task_branch
      then (
        raised (other_error (str "No active task branch. Start a dispatch with @agent first.")),
        w,
      )
      else and_then ended
          (λ _.
            and_then (cleanup_worker_branches task_branch) (λ _. clear_stored channel_id session))
          w
