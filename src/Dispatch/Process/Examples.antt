-- ===== src/Dispatch/Process/Examples.antt =====
-- Processes that do not end in time.
use pycodebridge.Base.{◌≡◌, refl, Bool, true, false, List, [], ◌∷◌, if◌then◌else◌}
use pycodebridge.Base.Text.{Text, str, text_eq}
use pycodebridge.Dispatch.Process.{timed_out, value, Platform, git, git_output_closer, gh_output}
use pycodebridge.Dispatch.Process.Killed.{IsReaping, IsOver, no_process_left}

abbrev is_gh : List Text → Bool
is_gh [] = false
is_gh (program ∷ args) = text_eq program (str "gh")

-- git is the process `false` and gh the process `true`; the world is which of them run.
abbrev stalled : Platform (Bool × Bool) Bool
stalled = record {
  spawn = λ dir cmd w. if is_gh cmd then (value true, (w.0, true)) else (value false, (true, w.1));
  communicate = λ proc w. (timed_out, w);
  kill = λ proc w. if proc then (w.0, false) else (false, w.1);
  wait = λ proc w. w;
}

abbrev running : Bool → Bool × Bool → Bool
running proc w = if proc then w.1 else w.0

killed_stops :
    (proc : Bool) (w : Bool × Bool) → running proc (stalled.wait proc (stalled.kill proc w)) ≡ false
killed_stops true w = refl
killed_stops false w = refl

stalled-IsReaping : IsReaping stalled running
stalled-IsReaping = record { ended = λ proc w out err rc e. cc; killed = killed_stops }

no_process_left_example :
    IsOver stalled running false (git stalled (str "/code/app") (str "fetch" ∷ []) (false, false))
    × (IsOver stalled running false
          (git_output_closer stalled (str "/code/app") (str "fetch" ∷ []) (false, false))
        × IsOver stalled running true
            (gh_output stalled (str "/code/app") (str "fetch" ∷ []) (false, false)))
unfolding text_eq
no_process_left_example =
    no_process_left stalled running stalled-IsReaping (str "/code/app") (str "fetch" ∷ [])
      (false, false) (true, false) (false, false) (false, true) false true refl refl
