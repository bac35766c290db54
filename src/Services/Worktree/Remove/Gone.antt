-- ===== src/Services/Worktree/Remove/Gone.antt =====
-- What the removal of a worktree comes to.
use pycodebridge.Base.{◌≡◌, refl, true, false, List, [], ◌∷◌, Bool-cases, inl, inr}
use pycodebridge.Base.Text.{Text, is_empty}
use pycodebridge.Dispatch.Program.{Failure, Outcome, returned, raised}
use pycodebridge.Dispatch.Closer.{next_of, or_on_raise, and_then, guarded}
use pycodebridge.Services.Worktree.{Disk, is_worktree_error}
use pycodebridge.Services.Worktree.Remove.{Paths, find_repo_for_worktree, ask_git, drop_dir, remove}

module _ {World : Type 0} (disk : Disk World) (paths : Paths World) where
  -- The call returned, and there is no directory at the path.
  pub record IsGone (path : Text) (r : Outcome Unit × World) : Type 0 where
    pub returns : r.0 ≡ returned tt
    pub no_dir : disk.is_dir path r.1 ≡ false

  -- `shutil.rmtree` removes the directory that it is called on.
  abbrev pub Removes : Text → Type 0
  Removes path = (w : World) → disk.is_dir path (disk.remove_tree path w) ≡ false

  drop_dir-IsGone :
      (path : Text) → Removes path → (w : World) → IsGone path (drop_dir disk paths path w)
  drop_dir-IsGone path works w = elim (Bool-cases (disk.is_dir path w)) [
    | inl t ↦ record { returns = refl; no_dir = (rw t (works w)) }
    | inr f ↦ record { returns = refl; no_dir = (rw f f) }
  ]

  drop_next-IsGone :
      (path : Text)
      → Removes path
      → (r : Outcome Unit × World) → r.0 ≡ returned tt
      → IsGone path (next_of (λ _. drop_dir disk paths path) r)
  drop_next-IsGone path works (returned u, w) e = drop_dir-IsGone path works w
  drop_next-IsGone path works (raised x, w) e = cc

  -- git fails with a `WorktreeError` only: the process can be started, and no cancellation comes.
  abbrev pub FailsKnown : Type 0
  FailsKnown =
      (repo_path : Text) (args : List Text) (w : World) (e : Failure)
      → (disk.git repo_path args w).0 ≡ raised e
      → is_worktree_error e ≡ true

  or_on_raise_returns :
      (r : Outcome Unit × World)
      → ((e : Failure) → r.0 ≡ raised e → is_worktree_error e ≡ true)
      → (or_on_raise is_worktree_error (λ u. u) tt r).0 ≡ returned tt
  or_on_raise_returns (returned tt, w) h = refl
  or_on_raise_returns (raised e, w) h = rw (h e refl) refl

  ask_git_returns :
      FailsKnown
      → (repo_path path : Text) (w : World) → (ask_git disk paths repo_path path w).0 ≡ returned tt
  unfolding guarded
  ask_git_returns known [] path w = refl
  ask_git_returns known (c ∷ repo) path w = or_on_raise_returns _ (known (c ∷ repo) _ w)

  -- When the search for the repository of a worktree comes to an end without an exception, found or
  -- not, and git either succeeds or fails with a `WorktreeError`, `remove` returns, and the directory
  -- of the worktree is gone: whether git is asked at all, removes it or fails. The path is not
  -- empty, and `shutil.rmtree` removes a directory that it is called on.
  pub remove-IsGone :
      (path repo_path : Text) (w : World)
      → is_empty path ≡ false
      → find_repo_for_worktree disk paths path w ≡ returned repo_path
      → FailsKnown
      → Removes path
      → IsGone path (remove disk paths path w)
  unfolding remove and_then
  remove-IsGone path repo w named found known works =
      rw (named, found)
        (drop_next-IsGone path works (ask_git disk paths repo path w)
          (ask_git_returns known repo path w))
