-- ===== src/Dispatch/Program/Ends.antt =====
-- What tasks raise, with the answers of the world given.
use pycodebridge.Base.{Bool, true, false, List, [], ◌∷◌, if◌then◌else◌}
use pycodebridge.Base.Text.{Text}
use pycodebridge.Dispatch.Program.{
  Failure, worktree_error, value_error, cancelled, Outcome, returned, raised, send, uuid_hex,
  remove, build_backend, create, run_agent, git_output, git_diff, Event, Answers, Task, next_of,
  ◌>>=◌, handled, try_else, closed, close_with, finally, for_each,
}

-- What is raised, if anything is, has the property.
abbrev pub Ends : {A : Type 0} → (Failure → Type 0) → Outcome A → Type 0
Ends F (returned a) = Unit
Ends F (raised e) = F e

abbrev pub Never : Failure → Type 0
Never e = ⊥

abbrev pub IsWorktreeError : Failure → Type 0
IsWorktreeError (worktree_error t) = Unit
IsWorktreeError e = ⊥

abbrev pub IsValueError : Failure → Type 0
IsValueError (value_error t) = Unit
IsValueError e = ⊥

-- What `except Exception` catches.
abbrev pub IsException : Failure → Type 0
IsException cancelled = ⊥
IsException e = Unit

-- A world in which messages go through and worktrees can be removed, in which an agent that cannot be
-- built and a worktree that cannot be created raise the exception meant for that, and in which
-- nothing is cancelled. An agent and git may raise what they like.
pub record IsKind (answers : Answers) : Type 0 where
  pub sends : (h : List Event) (t : Text) → Ends Never (answers h (send t))
  pub names : (h : List Event) → Ends Never (answers h uuid_hex)
  pub removes : (h : List Event) (path : Text) → Ends Never (answers h (remove path))
  pub builds : (h : List Event) (agent : Text) → Ends IsValueError (answers h (build_backend agent))
  pub creates :
      (h : List Event) (r key base branch : Text) (dirs : List Text)
      → Ends IsWorktreeError (answers h (create r key base branch dirs))
  pub runs : (h : List Event) (a w q : Text) → Ends IsException (answers h (run_agent a w q))
  pub gits :
      (h : List Event) (w : Text) (args : List Text)
      → Ends IsException (answers h (git_output w args))
  pub diffs : (h : List Event) (w b : Text) → Ends IsException (answers h (git_diff w b))

module _ (answers : Answers) where
  abbrev pub Raises : {A : Type 0} → (Failure → Type 0) → Task A → Type 0
  Raises F task = (h : List Event) → Ends F (task answers h).0

  next-Ends :
      {A B : Type 0} (F : Failure → Type 0) (k : A → Task B)
      → ((a : A) → Raises F (k a))
      → (r : Outcome A × List Event) → Ends F r.0
      → Ends F (next_of k answers r).0
  next-Ends F k kt (returned a, h) e = kt a h
  next-Ends F k kt (raised x, h) e = e

  pub bind-Raises :
      {A B : Type 0} (F : Failure → Type 0) (m : Task A) (k : A → Task B)
      → Raises F m
      → ((a : A) → Raises F (k a))
      → Raises F (m >>= k)
  unfolding ◌>>=◌
  bind-Raises F m k mt kt h = next-Ends F k kt (m answers h) (mt h)

  handled-Ends :
      {A B : Type 0} (G F : Failure → Type 0) (k : A → Task B) (f : Failure → Task B)
      → ((a : A) → Raises F (k a))
      → ((e : Failure) → G e → Raises F (f e))
      → (r : Outcome A × List Event) → Ends G r.0
      → Ends F (handled k f answers r).0
  handled-Ends G F k f kt ft (returned a, h) g = kt a h
  handled-Ends G F k f kt ft (raised x, h) g = ft x g h

  pub try-Raises :
      {A B : Type 0} (G F : Failure → Type 0) (m : Task A) (k : A → Task B) (f : Failure → Task B)
      → Raises G m
      → ((a : A) → Raises F (k a))
      → ((e : Failure) → G e → Raises F (f e))
      → Raises F (try_else m k f)
  unfolding try_else
  try-Raises G F m k f mt kt ft h = handled-Ends G F k f kt ft (m answers h) (mt h)

  closed-Ends :
      {A : Type 0} (F : Failure → Type 0) (o : Outcome A) (r : Outcome Unit × List Event)
      → Ends F o
      → Ends F r.0
      → Ends F (closed o r).0
  closed-Ends F o (returned u, h) ot rt = ot
  closed-Ends F o (raised x, h) ot rt = rt

  close-Ends :
      {A : Type 0} (F : Failure → Type 0) (cleanup : Task Unit)
      → Raises F cleanup
      → (r : Outcome A × List Event) → Ends F r.0
      → Ends F (close_with cleanup answers r).0
  close-Ends F cleanup ct (o, h) ot = closed-Ends F o (cleanup answers h) ot (ct h)

  pub finally-Raises :
      {A : Type 0} (F : Failure → Type 0) (m : Task A) (cleanup : Task Unit)
      → Raises F m
      → Raises F cleanup
      → Raises F (finally m cleanup)
  unfolding finally
  finally-Raises F m cleanup mt ct h = close-Ends F cleanup ct (m answers h) (mt h)

  pub if-Raises :
      {A : Type 0} (F : Failure → Type 0) (b : Bool) (x y : Task A)
      → Raises F x
      → Raises F y
      → Raises F (if b then x else y)
  if-Raises F true x y xt yt = xt
  if-Raises F false x y xt yt = yt

  pub for_each-Raises :
      {A : Type 0} (F : Failure → Type 0) (f : A → Task Unit)
      → ((a : A) → Raises F (f a))
      → (xs : List A) → Raises F (for_each f xs)
  unfolding for_each
  for_each-Raises F f ft [] = λ h. tt
  for_each-Raises F f ft (x ∷ xs) =
      bind-Raises F (f x) (λ _. for_each f xs) (ft x) (λ _. for_each-Raises F f ft xs)
