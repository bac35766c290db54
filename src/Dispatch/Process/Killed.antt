-- ===== src/Dispatch/Process/Killed.antt =====
-- Commands whose processes are over when they have come back.
use pycodebridge.Base.{◌≡◌, refl, Bool, false, zero, suc, List, [], ◌∷◌}
use pycodebridge.Base.Integers.{ℤ, pos, negsuc}
use pycodebridge.Base.Text.{Text, str}
use pycodebridge.Dispatch.Process.{
  Ended, output, timed_out, broken, stopped, Command, value, failed, crashed, cancelled, Platform,
  Output, limited, communicate_with_timeout, checked, unchecked, label_of, git, git_output_closer,
  gh_output,
}

module _ {World Proc : Type 0} (platform : Platform World Proc)
    (running : Proc → World → Bool) where
  -- The documented behaviour of processes: one whose output was read to the end with its exit code is
  -- not running, and neither is one that was killed and waited for.
  pub record IsReaping : Type 0 where
    pub ended :
        (proc : Proc) (w : World) (out err : Text) (rc : ℤ)
        → (platform.communicate proc w).0 ≡ output out err rc
        → running proc (platform.communicate proc w).1 ≡ false
    pub killed :
        (proc : Proc) (w : World) → running proc (platform.wait proc (platform.kill proc w)) ≡ false

  -- The process is over, unless an exception that is not the module's own came.
  abbrev pub IsOver : {A : Type 0} → Proc → Command A × World → Type 0
  IsOver proc (value a, w) = running proc w ≡ false
  IsOver proc (failed e, w) = running proc w ≡ false
  IsOver proc (crashed e, w) = Unit
  IsOver proc (cancelled, w) = Unit

  limited-IsOver :
      IsReaping
      → (label : Text) (proc : Proc) (r : Ended × World)
      → ((out err : Text) (rc : ℤ) → r.0 ≡ output out err rc → running proc r.1 ≡ false)
      → IsOver proc (limited platform label proc r)
  limited-IsOver reaping label proc (output out err rc, w) e = e out err rc refl
  limited-IsOver reaping label proc (timed_out, w) e = reaping.killed proc w
  limited-IsOver reaping label proc (broken x, w) e = tt
  limited-IsOver reaping label proc (stopped, w) e = tt

  checked-IsOver :
      (label : Text) (proc : Proc) (r : Command Output × World)
      → IsOver proc r
      → IsOver proc (checked platform label r)
  checked-IsOver label proc (value (out, (err, pos zero)), w) o = o
  checked-IsOver label proc (value (out, (err, pos (suc n))), w) o = o
  checked-IsOver label proc (value (out, (err, negsuc n)), w) o = o
  checked-IsOver label proc (failed e, w) o = o
  checked-IsOver label proc (crashed e, w) o = o
  checked-IsOver label proc (cancelled, w) o = o

  unchecked-IsOver :
      (proc : Proc) (r : Command Output × World)
      → IsOver proc r
      → IsOver proc (unchecked platform r)
  unchecked-IsOver proc (value (out, rest), w) o = o
  unchecked-IsOver proc (failed e, w) o = o
  unchecked-IsOver proc (crashed e, w) o = o
  unchecked-IsOver proc (cancelled, w) o = o

  communicate-IsOver :
      IsReaping
      → (label : Text) (proc : Proc) (w : World)
      → IsOver proc (communicate_with_timeout platform label proc w)
  unfolding communicate_with_timeout
  communicate-IsOver reaping label proc w =
      limited-IsOver reaping label proc (platform.communicate proc w) (reaping.ended proc w)

  -- Of the functions that run a command with `_communicate_with_timeout`, which are `_git` and
  -- `_git_output` of the three modules and `_gh_output` of the closer: once the command was started as
  -- a process and the function returned, or raised its module's own error, the process is over, also
  -- when it did not end in time: it is killed then and waited for. Another exception or a
  -- cancellation may leave it running, and `_count_changed_files` does not take part.
  pub no_process_left :
      IsReaping
      → (repo_path : Text) (args : List Text) (w w' u u' : World) (git_proc gh_proc : Proc)
      → platform.spawn [] (str "git" ∷ str "-C" ∷ repo_path ∷ args) w ≡ (value git_proc, w')
      → platform.spawn repo_path (str "gh" ∷ args) u ≡ (value gh_proc, u')
      → IsOver git_proc (git platform repo_path args w)
        × (IsOver git_proc (git_output_closer platform repo_path args w)
            × IsOver gh_proc (gh_output platform repo_path args u))
  unfolding git git_output_closer gh_output
  no_process_left reaping repo_path args w w' u u' p q e e' = (
    rw e (checked-IsOver (label_of (str "git") args) p _ (communicate-IsOver reaping _ p w')),
    (
      rw e (unchecked-IsOver p _ (communicate-IsOver reaping _ p w')),
      rw e' (checked-IsOver (label_of (str "gh") args) q _ (communicate-IsOver reaping _ q u')),
    ),
  )
