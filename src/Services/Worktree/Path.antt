-- ===== src/Services/Worktree/Path.antt =====
-- The directory of a worktree that `create` returns.
use pycodebridge.Base.{ℕ, ◌≡◌, List, leb, Bool-cases, inl, inr, if◌then◌else◌}
use pycodebridge.Base.Text.{Text}
use pycodebridge.Dispatch.Closer.{Act, next_of, and_then}
use pycodebridge.Dispatch.Program.{worktree_error, Outcome, returned, raised}
use pycodebridge.Services.Worktree.{
  Disk, WorktreeManager, create, safe_slug, worktree_add, count_for_repo, branch_for, link,
  add_and_link, too_many,
}

module _ {World : Type 0} (disk : Disk World) where
  -- A value that is returned comes from the rest, run on some world.
  next_of-returned :
      {A B : Type 0} (k : A → Act World B) (r : Outcome A × World) (b : B)
      → (next_of k r).0 ≡ returned b
      → (a : A) × (w : World) × ((k a w).0 ≡ returned b)
  next_of-returned k (returned a, w) b e = (a, w, e)
  next_of-returned k (raised x, w) b e = cc

  add_and_link-path :
      (repo_path branch path base : Text) (dirs : List Text) (w : World) (p : Text)
      → (add_and_link disk repo_path branch path base dirs w).0 ≡ returned p
      → p ≡ path
  unfolding and_then
  add_and_link-path repo_path branch path base dirs w p e =
      let (a, u, e') = next_of-returned _ (worktree_add disk repo_path branch path base w) p e in
      let (a', u', e'') = next_of-returned _ (link disk repo_path path dirs u) p e' in cc

  placed_path :
      (m : WorktreeManager) (repo_path slug base branch : Text) (dirs : List Text) (count : ℕ)
      (u : World) (p : Text)
      → (if leb m.max_per_repo count
          then (raised (worktree_error (too_many m repo_path)), u)
          else add_and_link disk repo_path
              (branch_for disk branch slug u)
              (disk.worktree_path m.base_dir repo_path slug u)
              base
              dirs
              u).0
        ≡ returned p
      → p ≡ disk.worktree_path m.base_dir repo_path slug u
  placed_path m repo_path slug base branch dirs count u p e =
      elim (Bool-cases (leb m.max_per_repo count)) [
        | inl t ↦ cc (rw t at e)
        | inr f ↦
            add_and_link-path repo_path (branch_for disk branch slug u)
              (disk.worktree_path m.base_dir repo_path slug u) base dirs u p (rw f at e)
      ]

  -- `create` returns the path that is made of the slug of its key.
  pub create-path :
      (m : WorktreeManager) (repo_path key base branch : Text) (dirs : List Text) (w : World)
      (p : Text)
      → (create disk m repo_path key base branch dirs w).0 ≡ returned p
      → (u : World) × (p ≡ disk.worktree_path m.base_dir repo_path (safe_slug key) u)
  unfolding create and_then
  create-path m repo_path key base branch dirs w p e =
      let (count, u, e') = next_of-returned _ (count_for_repo disk repo_path w) p e in
      (u, placed_path m repo_path (safe_slug key) base branch dirs count u p e')

  -- The path of a worktree does not change with the world: it is made of real paths.
  abbrev pub IsFixed : WorktreeManager → Type 0
  IsFixed m =
      (repo_path slug : Text) (w w' : World)
      → disk.worktree_path m.base_dir repo_path slug w
        ≡ disk.worktree_path m.base_dir repo_path slug w'
