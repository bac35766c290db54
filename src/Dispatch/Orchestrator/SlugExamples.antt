-- ===== src/Dispatch/Orchestrator/SlugExamples.antt =====
-- Two agents on a task branch with a long name.
use pycodebridge.Base.{◌≤◌, ◌≡◌, refl, arith, false, [], ◌∷◌, ◌++◌, length}
use pycodebridge.Base.Text.{Text, str, is_name_char, strip_by, lstrip, rstrip}
use pycodebridge.Base.Text.Lines.{splitlines}
use pycodebridge.Services.Worktree
use pycodebridge.Services.Worktree.{
  Disk, WorktreeManager, safe_slug, worktree_add, count_for_repo, count_managed_worktrees,
}
use pycodebridge.Dispatch.Closer.{and_then}
use pycodebridge.Dispatch.Program.{Outcome, returned, create, ask, pass, try_else}
use pycodebridge.Dispatch.Orchestrator.{
  Settings, branch_to_slug, create_for, with_worktree, on_worktree_error, failed_result,
}
use pycodebridge.Dispatch.Orchestrator.Slugs.{workers_share_slug}

abbrev long_branch : Text
long_branch = str "task/the-repository-name/20260101-120000"

slug_length : 40 ≤ length (branch_to_slug long_branch)
unfolding branch_to_slug strip_by lstrip rstrip is_name_char
slug_length = omega arith

-- No worktree is there yet, and git succeeds.
abbrev fine : Disk Unit
fine = record {
  git = λ repo args w. (returned tt, w);
  git_output = λ repo args w. (returned [], w);
  symlink_dirs = λ repo path dirs w. (returned tt, w);
  is_dir = λ path w. false;
  remove_tree = λ path w. w;
  worktree_path = λ base repo slug w. repo ++ str "-wt-" ++ slug;
  timestamp = λ w. str "20260101-120000";
}

abbrev settings : Settings
settings = record { output_mode = str "both"; plan_prompt = []; symlink_dirs = str ".venv" ∷ [] }

abbrev manager : WorktreeManager
manager = record { base_dir = []; max_per_repo = 5; cleanup_on_end = str "remove" }

-- The worktree of the agent on the task branch.
abbrev create_of : Text → Outcome Text
create_of agent =
    (Worktree.create fine manager (str "/code/app") (branch_to_slug long_branch ++ str "-" ++ agent)
      long_branch (long_branch ++ str "-" ++ agent) settings.symlink_dirs tt).0

abbrev shared : Text
shared = str "/code/app-wt-task-the-repository-name-20260101-120000"

shared_by_codex : create_of (str "codex") ≡ returned shared
unfolding Worktree.create and_then worktree_add count_for_repo count_managed_worktrees splitlines
    safe_slug branch_to_slug strip_by lstrip rstrip is_name_char
shared_by_codex = refl

shared_by_gemini : create_of (str "gemini") ≡ returned shared
unfolding Worktree.create and_then worktree_add count_for_repo count_managed_worktrees splitlines
    safe_slug branch_to_slug strip_by lstrip rstrip is_name_char
shared_by_gemini = refl

workers_share_slug_example :
    (create_for settings
        (str "codex")
        (str "/code/app")
        long_branch
        long_branch
        (long_branch ++ str "-codex")
        (str "fix")
      ≡ try_else
          (ask (
            create
              (str "/code/app")
              (branch_to_slug long_branch ++ str "-" ++ str "codex")
              long_branch
              (long_branch ++ str "-codex")
              settings.symlink_dirs))
          (with_worktree (str "codex") long_branch (long_branch ++ str "-codex") (str "fix"))
          (on_worktree_error (λ e. pass (failed_result (str "codex") [] e))))
    × (create_for settings
          (str "gemini")
          (str "/code/app")
          long_branch
          long_branch
          (long_branch ++ str "-gemini")
          (str "fix")
        ≡ try_else
            (ask (
              create
                (str "/code/app")
                (branch_to_slug long_branch ++ str "-" ++ str "gemini")
                long_branch
                (long_branch ++ str "-gemini")
                settings.symlink_dirs))
            (with_worktree (str "gemini") long_branch (long_branch ++ str "-gemini") (str "fix"))
            (on_worktree_error (λ e. pass (failed_result (str "gemini") [] e))))
    × (shared ≡ shared)
workers_share_slug_example =
    workers_share_slug fine settings manager (str "/code/app") long_branch long_branch (str "codex")
      (long_branch ++ str "-codex") (str "fix") (str "gemini") (long_branch ++ str "-gemini")
      (str "fix") tt tt shared shared slug_length (λ r s w w'. refl) shared_by_codex
      shared_by_gemini
