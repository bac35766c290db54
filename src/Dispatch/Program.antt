-- ===== src/Dispatch/Program.antt =====
-- What codebridge/dispatch/orchestrator.py asks of the world outside, and the tasks that ask it. A
-- task is given what each call comes back with as a function of the calls before it.
pub mod Traces
pub mod Ends
pub mod Yields
use pycodebridge.Base.{ℕ, Bool, true, false, List, [], ◌∷◌, ◌++◌, Option, none, some, if◌then◌else◌}
use pycodebridge.Base.Integers.{ℤ, pos, negsuc}
use pycodebridge.Base.Text.{Text, str}

-- The exceptions that the handlers tell apart; `cancelled` is the one that `except Exception` lets
-- pass.
pub data Failure : Type 0 where
  worktree_error orchestrator_error value_error other_error : Text → Failure
  cancelled : Failure

pub data Outcome (A : Type 0) : Type 0 where
  returned : A → Outcome A
  raised : Failure → Outcome A

-- The end of an agent's process: what `on_output`, `on_stderr` and `on_exit` were called with.
pub record Exit : Type 0 where
  pub rc : ℤ
  pub output_lines : List Text
  pub stderr_lines : List Text

pub data Call : Type 0 where
  -- the task branch of a channel's session in the store, read and written
  get_branch : Text → Text → Call
  set_branch : Text → Text → Text → Call
  -- `time.strftime("%Y%m%d-%H%M%S", time.gmtime())` and `uuid.uuid4().hex`
  timestamp uuid_hex : Call
  send : Text → Call
  build_backend : Text → Call
  -- `create` and `remove` of the worktree manager: the repository, the key, the base branch, the
  -- branch and the directories to link
  create : Text → Text → Text → Text → List Text → Call
  remove : Text → Call
  -- `backend.run` with `build_start_args`: the agent, the worktree and the prompt
  run_agent : Text → Text → Text → Call
  -- a git process: its standard output, or an `OrchestratorError`; and one whose exit code is seen
  git_output : Text → List Text → Call
  git_diff : Text → Text → Call

abbrev pub ReplyOf : Call → Type 0
ReplyOf (get_branch channel_id session) = Text
ReplyOf (set_branch channel_id session branch) = Unit
ReplyOf timestamp = Text
ReplyOf uuid_hex = Text
ReplyOf (send text) = Unit
ReplyOf (build_backend agent) = Unit
ReplyOf (create repo_path key base branch dirs) = Text
ReplyOf (remove path) = Unit
ReplyOf (run_agent agent path prompt) = Exit
ReplyOf (git_output path args) = Text
ReplyOf (git_diff path base) = ℤ × Text

pub data Event : Type 0 where
  event : (c : Call) → Outcome (ReplyOf c) → Event

-- What calls come back with, by the events before, the last one first.
abbrev pub Answers : Type 0
Answers = List Event → (c : Call) → Outcome (ReplyOf c)

-- A task from the events before it to those after it.
abbrev pub Task : Type 0 → Type 0
Task A = Answers → List Event → Outcome A × List Event

unfoldable pub ask : (c : Call) → Task (ReplyOf c)
ask c answers h = (answers h c, event c (answers h c) ∷ h)

abbrev pub pass : {A : Type 0} → A → Task A
pass a answers h = (returned a, h)

abbrev pub fail : {A : Type 0} → Failure → Task A
fail e answers h = (raised e, h)

abbrev pub next_of :
    {A B : Type 0} → (A → Task B) → Answers → Outcome A × List Event → Outcome B × List Event
next_of k answers (returned a, h) = k a answers h
next_of k answers (raised e, h) = (raised e, h)

infixl 5 ◌>>=◌ ◌>>◌
unfoldable pub ◌>>=◌ : {A B : Type 0} → Task A → (A → Task B) → Task B
(task >>= k) answers h = next_of k answers (task answers h)

abbrev pub ◌>>◌ : {A B : Type 0} → Task A → Task B → Task B
task >> rest = task >>= λ _. rest

abbrev pub handled :
    {A B : Type 0}
    → (A → Task B)
    → (Failure → Task B)
    → Answers
    → Outcome A × List Event
    → Outcome B × List Event
handled k handler answers (returned a, h) = k a answers h
handled k handler answers (raised e, h) = handler e answers h

-- `try: a = task` with a handler of what it raises, and the rest behind it.
unfoldable pub try_else : {A B : Type 0} → Task A → (A → Task B) → (Failure → Task B) → Task B
try_else task k handler answers h = handled k handler answers (task answers h)

-- The end of a `finally` block: what it raises replaces what was to be returned or raised.
abbrev pub closed : {A : Type 0} → Outcome A → Outcome Unit × List Event → Outcome A × List Event
closed o (returned u, h) = (o, h)
closed o (raised e, h) = (raised e, h)

abbrev pub close_with :
    {A : Type 0} → Task Unit → Answers → Outcome A × List Event → Outcome A × List Event
close_with cleanup answers (o, h) = closed o (cleanup answers h)

-- `try: … finally: …`
unfoldable pub finally : {A : Type 0} → Task A → Task Unit → Task A
finally task cleanup answers h = close_with cleanup answers (task answers h)

-- `for x in xs: …`
unfoldable pub for_each : {A : Type 0} → (A → Task Unit) → List A → Task Unit
for_each f [] = pass tt
for_each f (x ∷ xs) = f x >> for_each f xs

-- `[await f(x) for x in xs]`
unfoldable pub collect_each : {A B : Type 0} → (A → Task B) → List A → Task (List B)
collect_each f [] = pass []
collect_each f (x ∷ xs) = do y ← f x; ys ← collect_each f xs; pass (y ∷ ys)
