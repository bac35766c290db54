-- ===== src/Dispatch/Process.antt =====
-- The commands that codebridge/dispatch/closer.py, codebridge/dispatch/orchestrator.py and
-- codebridge/services/worktree.py run, each in functions of its own: a process with a time limit.
-- `asyncio` and the processes are reached through `Platform`.
pub mod Killed
pub mod Examples
use pycodebridge.Base.{ℕ, zero, Bool, true, false, not, List, [], ◌∷◌, ◌++◌, keep, length}
use pycodebridge.Base.Integers.{ℤ, pos, negsuc}
use pycodebridge.Base.Text.{Text, str, is_empty, strip, join}
use pycodebridge.Base.Text.Lines.{splitlines}

-- What `asyncio.wait_for(proc.communicate(), timeout)` comes to: the decoded output and the exit code,
-- `asyncio.TimeoutError`, another `Exception`, or a cancellation.
pub data Ended : Type 0 where
  output : (stdout stderr : Text) (returncode : ℤ) → Ended
  timed_out : Ended
  broken : Text → Ended
  stopped : Ended

-- What a command comes to: a value, the module's own error, another `Exception`, or a cancellation.
pub data Command (A : Type 0) : Type 0 where
  value : A → Command A
  failed : Text → Command A
  crashed : Text → Command A
  cancelled : Command A

-- `create_subprocess_exec` with a directory, `communicate` with the time limit, and `kill` and `wait`,
-- whose exceptions are suppressed. A process is an element of `Proc`.
pub record Platform (World Proc : Type 0) : Type 0 where
  pub spawn : Text → List Text → World → Command Proc × World
  pub communicate : Proc → World → Ended × World
  pub kill : Proc → World → World
  pub wait : Proc → World → World

-- The standard output, the standard error and the exit code.
abbrev pub Output : Type 0
Output = Text × (Text × ℤ)

abbrev pub label_of : Text → List Text → Text
label_of program args = program ++ str " " ++ join (str " ") args

module _ {World Proc : Type 0} (platform : Platform World Proc) where
  abbrev pub limited : Text → Proc → Ended × World → Command Output × World
  limited label proc (output out err rc, w) = (value (out, (err, rc)), w)
  limited label proc (timed_out, w) =
      (failed (label ++ str " timed out after 60s"), platform.wait proc (platform.kill proc w))
  limited label proc (broken e, w) = (crashed e, w)
  limited label proc (stopped, w) = (cancelled, w)

  unfoldable pub communicate_with_timeout : Text → Proc → World → Command Output × World
  communicate_with_timeout label proc w = limited label proc (platform.communicate proc w)

  -- The output of a process that ended with 0.
  abbrev checked : Text → Command Output × World → Command Text × World
  checked label (value (out, (err, pos zero)), w) = (value out, w)
  checked label (value (out, (err, rc)), w) = (failed (label ++ str " failed: " ++ strip err), w)
  checked label (failed e, w) = (failed e, w)
  checked label (crashed e, w) = (crashed e, w)
  checked label (cancelled, w) = (cancelled, w)

  -- The output, whatever the exit code is.
  abbrev unchecked : Command Output × World → Command Text × World
  unchecked (value (out, rest), w) = (value out, w)
  unchecked (failed e, w) = (failed e, w)
  unchecked (crashed e, w) = (crashed e, w)
  unchecked (cancelled, w) = (cancelled, w)

  abbrev spawned :
      (Proc → World → Command Text × World) → Command Proc × World → Command Text × World
  spawned use_proc (value proc, w) = use_proc proc w
  spawned use_proc (failed e, w) = (failed e, w)
  spawned use_proc (crashed e, w) = (crashed e, w)
  spawned use_proc (cancelled, w) = (cancelled, w)

  abbrev pub checked_run : Text → Proc → World → Command Text × World
  checked_run label proc w = checked label (communicate_with_timeout label proc w)

  abbrev pub unchecked_run : Text → Proc → World → Command Text × World
  unchecked_run label proc w = unchecked (communicate_with_timeout label proc w)

  -- `_git` and `_git_output` of the orchestrator and the worktrees; `_git` drops the output. `_git` of
  -- the closer is the same.
  unfoldable pub git : Text → List Text → World → Command Text × World
  git repo_path args w =
      spawned (checked_run (label_of (str "git") args))
        (platform.spawn [] (str "git" ∷ str "-C" ∷ repo_path ∷ args) w)

  -- `_git_output` of the closer
  unfoldable pub git_output_closer : Text → List Text → World → Command Text × World
  git_output_closer repo_path args w =
      spawned (unchecked_run (label_of (str "git") args))
        (platform.spawn [] (str "git" ∷ str "-C" ∷ repo_path ∷ args) w)

  -- `_gh_output` of the closer
  unfoldable pub gh_output : Text → List Text → World → Command Text × World
  gh_output repo_path args w =
      spawned (checked_run (label_of (str "gh") args))
        (platform.spawn repo_path (str "gh" ∷ args) w)

  -- What `_count_changed_files` of the orchestrator makes of `asyncio.wait_for`: `except Exception`
  -- catches the time-out too, and leaves the process as it is.
  abbrev changed_lines : Ended × World → Command ℕ × World
  changed_lines (output out err (pos zero), w) =
      (value (length (keep (λ l. not (is_empty (strip l))) (splitlines out))), w)
  changed_lines (output out err rc, w) = (value 0, w)
  changed_lines (timed_out, w) = (value 0, w)
  changed_lines (broken e, w) = (value 0, w)
  changed_lines (stopped, w) = (cancelled, w)

  abbrev changed_by : Command Proc × World → Command ℕ × World
  changed_by (value proc, w) = changed_lines (platform.communicate proc w)
  changed_by (failed e, w) = (value 0, w)
  changed_by (crashed e, w) = (value 0, w)
  changed_by (cancelled, w) = (cancelled, w)

  unfoldable pub count_changed : Text → Text → World → Command ℕ × World
  count_changed wt_path base_branch w = changed_by (
      platform.spawn []
        (str "git"
          ∷ str "-C"
          ∷ wt_path
          ∷ str "diff"
          ∷ str "--name-only"
          ∷ base_branch
          ∷ str "HEAD"
          ∷ [])
        w)
