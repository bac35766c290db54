-- ===== src/Dispatch/Closer/Outcome.antt =====
-- How a task ends: what `close` does to the stored branch.
use pycodebridge.Base.{◌≡◌, refl, ◌∙◌, Bool, List, [], ◌∷◌, ◌++◌, if◌then◌else◌, if_intro}
use pycodebridge.Base.Text.{Text, str, text_eq, is_empty}
use pycodebridge.Sessions.State.{FileState}
use pycodebridge.Sessions.Stored.{get_task_branch, clear_task_branch, update_task_branch}
use pycodebridge.Sessions.Stored.Access.{find-put_session_self}
use pycodebridge.Dispatch.Program.{Failure, Outcome as Result, returned, raised}
use pycodebridge.Dispatch.Closer.{
  Act, Effects, and_then, next_of, is_exception, guarded, or_on_raise, attempt, open_pr, merge,
  delete_branches, branch_names, cleanup_found, cleanup_worker_branches, close,
}

get-clear_task_branch :
    (fs : FileState) (c s : Text) → get_task_branch (clear_task_branch fs c s) c s ≡ []
unfolding get_task_branch update_task_branch
get-clear_task_branch fs c s = rw find-put_session_self refl

module _ {World : Type 0} (fx : Effects World) where
  -- What was written to the store is what is there.
  abbrev pub IsStore : Type 0
  IsStore = (f : FileState) (w : World) → fx.file (fx.write f w) ≡ f

  -- The call leaves the stored sessions alone.
  abbrev pub Quiet : {A : Type 0} → Act World A → Type 0
  Quiet act = (w : World) → fx.file (act w).1 ≡ fx.file w

  -- Commands and the chat leave the stored sessions alone, and nobody else writes to them meanwhile.
  pub record IsQuiet : Type 0 where
    pub git : (args : List Text) → Quiet (fx.git args)
    pub git_output : (args : List Text) → Quiet (fx.git_output args)
    pub gh_output : (args : List Text) → Quiet (fx.gh_output args)
    pub send : (text : Text) → Quiet (fx.send text)

  -- The call does not raise.
  abbrev pub Returns : {A : Type 0} → Act World A → Type 0
  Returns {A} act = (w : World) → (a : A) × ((act w).0 ≡ returned a)

  pub record AllReturn : Type 0 where
    pub git : (args : List Text) → Returns (fx.git args)
    pub git_output : (args : List Text) → Returns (fx.git_output args)
    pub gh_output : (args : List Text) → Returns (fx.gh_output args)
    pub send : (text : Text) → Returns (fx.send text)

  -- A property of what follows and of every exception is one of the whole.
  next_of-intro :
      {A B : Type 0} (P : Result B × World → Type 0) (k : A → Act World B) (r : Result A × World)
      → ((a : A) (w : World) → P (k a w))
      → ((e : Failure) (w : World) → P (raised e, w))
      → P (next_of k r)
  next_of-intro P k (returned a, w) f g = f a w
  next_of-intro P k (raised e, w) f g = g e w

  and_then-intro :
      {A B : Type 0} (P : Result B × World → Type 0) (act : Act World A) (k : A → Act World B)
      (w : World)
      → ((a : A) (w : World) → P (k a w))
      → ((e : Failure) (w : World) → P (raised e, w))
      → P (and_then act k w)
  unfolding and_then
  and_then-intro P act k w f g = next_of-intro P k (act w) f g

  -- When `close` returns, the session has no task branch any more.
  pub close_clears :
      (channel session mode : Text) (w : World)
      → IsStore
      → (close fx channel session mode w).0 ≡ returned tt
      → get_task_branch (fx.file (close fx channel session mode w).1) channel session ≡ []
  unfolding close
  close_clears c s mode w law =
      if_intro IsCleared (is_empty branch) _ _ (λ _ e. cc)
        (λ _.
          and_then-intro IsCleared ended _ w
            (λ _ w'.
              and_then-intro IsCleared (cleanup_worker_branches fx branch) _ w'
                (λ _ w'' _. rw law (get-clear_task_branch (fx.file w'') c s)) (λ e w'' x. cc))
            (λ e w' x. cc))
    where
      branch : Text
      branch = get_task_branch (fx.file w) c s

      ended : Act World Unit
      ended = if text_eq mode (str "merge") then merge fx branch else open_pr fx branch

      IsCleared : Result Unit × World → Type 0
      IsCleared r = r.0 ≡ returned tt → get_task_branch (fx.file r.1) c s ≡ []

  next_of-file :
      {A B : Type 0} (k : A → Act World B) (r : Result A × World)
      → ((a : A) → Quiet (k a))
      → fx.file (next_of k r).1 ≡ fx.file r.1
  next_of-file k (returned a, w) q = q a w
  next_of-file k (raised e, w) q = refl

  then-Quiet :
      {A B : Type 0} (act : Act World A) (k : A → Act World B)
      → Quiet act
      → ((a : A) → Quiet (k a))
      → Quiet (and_then act k)
  unfolding and_then
  then-Quiet act k q r w = next_of-file k (act w) r ∙ q w

  or_on_raise-file :
      {A : Type 0} (caught : Failure → Bool) (f : A → A) (a : A) (r : Result A × World)
      → fx.file (or_on_raise caught f a r).1 ≡ fx.file r.1
  or_on_raise-file caught f a (returned b, w) = refl
  or_on_raise-file {A = A} caught f a (raised e, w) =
      if_intro (λ (r : Result A × World). fx.file r.1 ≡ fx.file w) (caught e) (returned a, w)
        (raised e, w) (λ _. refl) (λ _. refl)

  guarded-Quiet :
      {A : Type 0} (caught : Failure → Bool) (act : Act World A) (f : A → A) (a : A)
      → Quiet act
      → Quiet (guarded caught act f a)
  unfolding guarded
  guarded-Quiet caught act f a q w = or_on_raise-file caught f a (act w) ∙ q w

  attempt-Quiet : IsQuiet → (args : List Text) → Quiet (attempt fx args)
  attempt-Quiet q args = guarded-Quiet is_exception (fx.git args) (λ u. u) tt (q.git args)

  open_pr-Quiet : IsQuiet → (branch : Text) → Quiet (open_pr fx branch)
  unfolding open_pr
  open_pr-Quiet q branch =
      then-Quiet _ _ (q.git _)
        (λ _. then-Quiet _ _ (q.git_output _) (λ _. then-Quiet _ _ (q.gh_output _) (λ _. q.send _)))

  merge-Quiet : IsQuiet → (branch : Text) → Quiet (merge fx branch)
  unfolding merge
  merge-Quiet q branch = then-Quiet _ _ (guarded-Quiet _ _ _ _ (q.git_output _)) (λ default.
      then-Quiet _ _ (q.git _) (λ _. then-Quiet _ _ (q.git _) (λ _. then-Quiet _ _ (q.git _) (λ _.
        then-Quiet _ _ (attempt-Quiet q _)
          (λ _. then-Quiet _ _ (attempt-Quiet q _) (λ _. q.send _))))))

  delete_branches-Quiet : IsQuiet → (branches : List Text) → Quiet (delete_branches fx branches)
  unfolding delete_branches
  delete_branches-Quiet q [] = λ w. refl
  delete_branches-Quiet q (b ∷ bs) =
      if_intro Quiet (is_empty b) (delete_branches fx bs) _ (λ _. delete_branches-Quiet q bs)
        (λ _.
          then-Quiet _ _ (attempt-Quiet q _)
            (λ _. then-Quiet _ _ (attempt-Quiet q _) (λ _. delete_branches-Quiet q bs)))

  cleanup_found-file :
      IsQuiet → (r : Result Text × World) → fx.file (cleanup_found fx r).1 ≡ fx.file r.1
  cleanup_found-file q (returned out, w) = delete_branches-Quiet q (branch_names fx out) w
  cleanup_found-file q (raised e, w) =
      if_intro (λ (r : Result Unit × World). fx.file r.1 ≡ fx.file w) (is_exception e)
        (returned tt, w) (raised e, w) (λ _. refl) (λ _. refl)

  cleanup-Quiet : IsQuiet → (branch : Text) → Quiet (cleanup_worker_branches fx branch)
  unfolding cleanup_worker_branches
  cleanup-Quiet q branch w =
      cleanup_found-file q _
      ∙ q.git_output (str "branch" ∷ str "--list" ∷ (branch ++ str "-*") ∷ []) w

  next_of-kept :
      {A B : Type 0} (f : FileState) (k : A → Act World B) (r : Result A × World) (e : Failure)
      → fx.file r.1 ≡ f
      → ((a : A) → (k a r.1).0 ≡ raised e → fx.file (k a r.1).1 ≡ f)
      → (next_of k r).0 ≡ raised e
      → fx.file (next_of k r).1 ≡ f
  next_of-kept f k (returned a, w) e q h x = h a x
  next_of-kept f k (raised e', w) e q h x = q

  -- When `close` raises, the stored sessions are what they were before, if no command, no message to
  -- the chat and nobody else writes to them while it runs.
  pub close_keeps :
      (channel session mode : Text) (e : Failure) (w : World)
      → IsQuiet
      → (close fx channel session mode w).0 ≡ raised e
      → fx.file (close fx channel session mode w).1 ≡ fx.file w
  unfolding close and_then
  close_keeps c s mode e w q =
      if_intro IsKept (is_empty branch) _ _ (λ _ _. refl)
        (λ _. next_of-kept (fx.file w) _ (ended w) e (ended-Quiet w) (λ _.
          next_of-kept (fx.file w) _ (cleanup_worker_branches fx branch (ended w).1) e
            (cleanup-Quiet q branch (ended w).1 ∙ ended-Quiet w) (λ _ x. cc)))
    where
      branch : Text
      branch = get_task_branch (fx.file w) c s

      ended : Act World Unit
      ended = if text_eq mode (str "merge") then merge fx branch else open_pr fx branch

      ended-Quiet : Quiet ended
      ended-Quiet =
          if_intro Quiet (text_eq mode (str "merge")) (merge fx branch) (open_pr fx branch)
            (λ _. merge-Quiet q branch) (λ _. open_pr-Quiet q branch)

      IsKept : Result Unit × World → Type 0
      IsKept r = r.0 ≡ raised e → fx.file r.1 ≡ fx.file w
