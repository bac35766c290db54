-- ===== src/Dispatch/Orchestrator/Worktrees.antt =====
-- The worktrees that a dispatch creates, and the removals that it asks for.
use pycodebridge.Base.{◌+◌, ◌≡◌, refl, arith, Bool, true, false, List, [], ◌∷◌, if◌then◌else◌}
use pycodebridge.Base.Text.{Text, text_eq}
use pycodebridge.Dispatch.Program.{
  Failure, Outcome, returned, raised, Call, create, remove, get_branch, set_branch, timestamp,
  uuid_hex, send, build_backend, run_agent, git_output, git_diff, Event, event, Answers, Task, ask,
  pass, fail, next_of, ◌>>=◌, handled, try_else, closed, close_with, finally, for_each,
  collect_each,
}
use pycodebridge.Dispatch.Program.Traces.{count}

-- A call of `create` that returned this worktree.
unfoldable pub is_created : Text → Event → Bool
is_created path (event (create r k b n d) (returned p)) = text_eq p path
is_created path e = false

-- A call of `remove` on it, whatever it came back with; one that returned, and one that raised.
unfoldable pub is_remove : Text → Event → Bool
is_remove path (event (remove p) o) = text_eq p path
is_remove path e = false

unfoldable pub is_removed : Text → Event → Bool
is_removed path (event (remove p) (returned u)) = text_eq p path
is_removed path e = false

unfoldable pub is_left : Text → Event → Bool
is_left path (event (remove p) (raised x)) = text_eq p path
is_left path e = false

-- From the first events to the second, the path is created as often as its removal is asked for.
abbrev pub Even : Text → List Event → List Event → Type 0
Even p h h' =
    count (is_created p) h' + count (is_remove p) h
    ≡ count (is_remove p) h' + count (is_created p) h

-- The same, but one call of `remove` on `path` more.
abbrev pub Paid : Text → Text → List Event → List Event → Type 0
Paid p path h h' =
    count (is_created p) h' + count (is_remove p) h + (if text_eq path p then 1 else 0)
    ≡ count (is_remove p) h' + count (is_created p) h

abbrev pub Tidy : {A : Type 0} → Text → Task A → Type 0
Tidy p task = (answers : Answers) (h : List Event) → Even p h (task answers h).1

-- The task removes a worktree at `path` that was created before it.
abbrev pub Removing : {A : Type 0} → Text → Text → Task A → Type 0
Removing p path task = (answers : Answers) (h : List Event) → Paid p path h (task answers h).1

-- A call that neither creates nor removes a worktree.
abbrev pub is_plain : Call → Bool
is_plain (create r k b n d) = false
is_plain (remove p) = false
is_plain c = true

is_remove-split :
    (p : Text) (e : Event)
    → (if is_remove p e then 1 else 0)
      ≡ (if is_removed p e then 1 else 0) + (if is_left p e then 1 else 0)
unfolding is_remove is_removed is_left
is_remove-split p (event (get_branch c s) o) = refl
is_remove-split p (event (set_branch c s b) o) = refl
is_remove-split p (event timestamp o) = refl
is_remove-split p (event uuid_hex o) = refl
is_remove-split p (event (send t) o) = refl
is_remove-split p (event (build_backend a) o) = refl
is_remove-split p (event (create r k b n d) o) = refl
is_remove-split p (event (remove q) (returned u)) = omega arith
is_remove-split p (event (remove q) (raised x)) = omega arith
is_remove-split p (event (run_agent a w q) o) = refl
is_remove-split p (event (git_output w a) o) = refl
is_remove-split p (event (git_diff w b) o) = refl

-- A removal that was asked for returned or raised.
pub count-is_remove :
    (p : Text) (h : List Event)
    → count (is_remove p) h ≡ count (is_removed p) h + count (is_left p) h
unfolding count
count-is_remove p [] = refl
count-is_remove p (e ∷ h) =
    let rest = count-is_remove p h in let here = is_remove-split p e in ground arith

module _ (p : Text) where
  pub ask-Tidy : (c : Call) → is_plain c ≡ true → Tidy p (ask c)
  unfolding ask count is_created is_remove
  ask-Tidy (get_branch c s) e answers h = omega arith
  ask-Tidy (set_branch c s b) e answers h = omega arith
  ask-Tidy timestamp e answers h = omega arith
  ask-Tidy uuid_hex e answers h = omega arith
  ask-Tidy (send t) e answers h = omega arith
  ask-Tidy (build_backend a) e answers h = omega arith
  ask-Tidy (create r k b n d) e answers h = cc
  ask-Tidy (remove q) e answers h = cc
  ask-Tidy (run_agent a w q) e answers h = omega arith
  ask-Tidy (git_output w a) e answers h = omega arith
  ask-Tidy (git_diff w b) e answers h = omega arith

  pub remove-Removing : (path : Text) → Removing p path (ask (remove path))
  unfolding ask count is_created is_remove
  remove-Removing path answers h = ground arith

  pub pass-Tidy : (A : Type 0) (a : A) → Tidy p (pass a)
  pass-Tidy A a answers h = omega arith

  next-Even :
      {A B : Type 0} (k : A → Task B)
      → ((a : A) → Tidy p (k a))
      → (answers : Answers) (h : List Event) (r : Outcome A × List Event) → Even p h r.1
      → Even p h (next_of k answers r).1
  next-Even k kt answers h (returned a, h') e = let e' = kt a answers h' in omega arith
  next-Even k kt answers h (raised x, h') e = e

  pub bind-Tidy :
      {A B : Type 0} (m : Task A) (k : A → Task B)
      → Tidy p m
      → ((a : A) → Tidy p (k a))
      → Tidy p (m >>= k)
  unfolding ◌>>=◌
  bind-Tidy m k mt kt answers h = next-Even k kt answers h (m answers h) (mt answers h)

  handled-Even :
      {A B : Type 0} (k : A → Task B) (handler : Failure → Task B)
      → ((a : A) → Tidy p (k a))
      → ((e : Failure) → Tidy p (handler e))
      → (answers : Answers) (h : List Event) (r : Outcome A × List Event) → Even p h r.1
      → Even p h (handled k handler answers r).1
  handled-Even k f kt ft answers h (returned a, h') e = let e' = kt a answers h' in omega arith
  handled-Even k f kt ft answers h (raised x, h') e = let e' = ft x answers h' in omega arith

  pub try-Tidy :
      {A B : Type 0} (m : Task A) (k : A → Task B) (handler : Failure → Task B)
      → Tidy p m
      → ((a : A) → Tidy p (k a))
      → ((e : Failure) → Tidy p (handler e))
      → Tidy p (try_else m k handler)
  unfolding try_else
  try-Tidy m k f mt kt ft answers h = handled-Even k f kt ft answers h (m answers h) (mt answers h)

  closed-eq : {A : Type 0} (o : Outcome A) (r : Outcome Unit × List Event) → (closed o r).1 ≡ r.1
  closed-eq o (returned u, h) = refl
  closed-eq o (raised e, h) = refl

  close-Paid :
      {A : Type 0} (path : Text) (cleanup : Task Unit)
      → Removing p path cleanup
      → (answers : Answers) (h : List Event) (r : Outcome A × List Event) → Even p h r.1
      → Paid p path h (close_with cleanup answers r).1
  close-Paid path cleanup ct answers h (o, h') e =
      let e' = ct answers h' in rw (closed-eq o (cleanup answers h')) omega arith

  pub finally-Removing :
      {A : Type 0} (path : Text) (m : Task A) (cleanup : Task Unit)
      → Tidy p m
      → Removing p path cleanup
      → Removing p path (finally m cleanup)
  unfolding finally
  finally-Removing path m cleanup mt ct answers h =
      close-Paid path cleanup ct answers h (m answers h) (mt answers h)

  created-Even :
      {B : Type 0} (r key base branch : Text) (dirs : List Text) (k : Text → Task B)
      (handler : Failure → Task B)
      → ((path : Text) → Removing p path (k path))
      → ((e : Failure) → Tidy p (handler e))
      → (answers : Answers) (h : List Event) (o : Outcome Text)
      → Even p h (handled k handler answers (o, event (create r key base branch dirs) o ∷ h)).1
  unfolding count is_created is_remove
  created-Even r key base branch dirs k f kt ft answers h (returned path) =
      let e = kt path answers (event (create r key base branch dirs) (returned path) ∷ h) in
      ground arith
  created-Even r key base branch dirs k f kt ft answers h (raised x) =
      let e = ft x answers (event (create r key base branch dirs) (raised x) ∷ h) in omega arith

  -- A worktree that is created and then removed.
  pub create-Tidy :
      {B : Type 0} (r key base branch : Text) (dirs : List Text) (k : Text → Task B)
      (handler : Failure → Task B)
      → ((path : Text) → Removing p path (k path))
      → ((e : Failure) → Tidy p (handler e))
      → Tidy p (try_else (ask (create r key base branch dirs)) k handler)
  unfolding try_else ask
  create-Tidy r key base branch dirs k f kt ft answers h =
      created-Even r key base branch dirs k f kt ft answers h
        (answers h (create r key base branch dirs))

  next-handled :
      {A B : Type 0} (k : A → Task B) (answers : Answers) (r : Outcome A × List Event)
      → next_of k answers r ≡ handled k fail answers r
  next-handled k answers (returned a, h) = refl
  next-handled k answers (raised e, h) = refl

  pub create_then-Tidy :
      {B : Type 0} (r key base branch : Text) (dirs : List Text) (k : Text → Task B)
      → ((path : Text) → Removing p path (k path))
      → Tidy p (ask (create r key base branch dirs) >>= k)
  unfolding ◌>>=◌ ask
  create_then-Tidy r key base branch dirs k kt answers h =
      let c = create r key base branch dirs in
      rw (next-handled k answers (answers h c, event c (answers h c) ∷ h)) (
        created-Even r key base branch dirs k fail kt (λ e answers h. omega arith) answers h
          (answers h c))

  pub if-Tidy :
      {A : Type 0} (b : Bool) (x y : Task A) → Tidy p x → Tidy p y → Tidy p (if b then x else y)
  if-Tidy true x y xt yt = xt
  if-Tidy false x y xt yt = yt

  pub for_each-Tidy :
      {A : Type 0} (f : A → Task Unit)
      → ((a : A) → Tidy p (f a))
      → (xs : List A) → Tidy p (for_each f xs)
  unfolding for_each
  for_each-Tidy f ft [] = pass-Tidy Unit tt
  for_each-Tidy f ft (x ∷ xs) =
      bind-Tidy (f x) (λ _. for_each f xs) (ft x) (λ _. for_each-Tidy f ft xs)

  pub collect_each-Tidy :
      {A B : Type 0} (f : A → Task B)
      → ((a : A) → Tidy p (f a))
      → (xs : List A) → Tidy p (collect_each f xs)
  unfolding collect_each
  collect_each-Tidy {B = B} f ft [] = pass-Tidy (List B) []
  collect_each-Tidy {B = B} f ft (x ∷ xs) =
      bind-Tidy (f x) (λ y. collect_each f xs >>= λ ys. pass (y ∷ ys)) (ft x)
        (λ y.
          bind-Tidy (collect_each f xs) (λ ys. pass (y ∷ ys)) (collect_each-Tidy f ft xs)
            (λ ys. pass-Tidy (List B) (y ∷ ys)))
