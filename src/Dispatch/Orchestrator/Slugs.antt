-- ===== src/Dispatch/Orchestrator/Slugs.antt =====
-- The directories of the agents' worktrees.
use pycodebridge.Base.{
  ℕ, zero, suc, ◌≤◌, ◌≡◌, refl, sym, ap, ◌∙◌, arith, List, [], ◌∷◌, ◌++◌, map, length, take,
  append_assoc, if◌then◌else◌,
}
use pycodebridge.Base.Text.{Text, str, is_name_char}
use pycodebridge.Services.Worktree
use pycodebridge.Services.Worktree.{Disk, WorktreeManager, safe_slug}
use pycodebridge.Services.Worktree.Path.{create-path, IsFixed}
use pycodebridge.Dispatch.Program.{returned, create, ask, pass, try_else}
use pycodebridge.Dispatch.Orchestrator.{
  Settings, branch_to_slug, create_for, with_worktree, on_worktree_error, failed_result,
}

module _ {ℓ} {A : Type ℓ} where
  take-append_long : (n : ℕ) (xs ys : List A) → n ≤ length xs → take n (xs ++ ys) ≡ take n xs
  take-append_long zero xs ys e = refl
  take-append_long (suc n) [] ys e = absurd (omega arith)
  take-append_long (suc n) (x ∷ xs) ys e = ap (◌∷◌ x) (take-append_long n xs ys (omega arith))

module _ {ℓ κ} {A : Type ℓ} {B : Type κ} (f : A → B) where
  take-map_long :
      (n : ℕ) (xs ys : List A) → n ≤ length xs → take n (map f (xs ++ ys)) ≡ take n (map f xs)
  take-map_long zero xs ys e = refl
  take-map_long (suc n) [] ys e = absurd (omega arith)
  take-map_long (suc n) (x ∷ xs) ys e = ap (◌∷◌ (f x)) (take-map_long n xs ys (omega arith))

-- A key of forty characters or more is cut there.
safe_slug-long : (s t : Text) → 40 ≤ length s → safe_slug (s ++ t) ≡ safe_slug s
unfolding safe_slug
safe_slug-long [] t e = absurd (omega arith)
safe_slug-long (c ∷ s) t e =
    rw (take-map_long (λ c. if is_name_char c then c else b'-') 40 (c ∷ s) t e) refl

-- The names of the agents are cut off.
same_slug :
    (task_branch agent other : Text)
    → 40 ≤ length (branch_to_slug task_branch)
    → safe_slug (branch_to_slug task_branch ++ str "-" ++ agent)
      ≡ safe_slug (branch_to_slug task_branch ++ str "-" ++ other)
same_slug b a o e =
    ap safe_slug (append_assoc (branch_to_slug b) (str "-") a)
    ∙ safe_slug-long (branch_to_slug b) (str "-" ++ a) e
    ∙ sym (safe_slug-long (branch_to_slug b) (str "-" ++ o) e)
    ∙ ap safe_slug (sym (append_assoc (branch_to_slug b) (str "-") o))

module _ {World : Type 0} (disk : Disk World) where
  -- When the slug of the task branch has forty characters, two agents that `_run_backend` creates a
  -- worktree for get the same directory, if both calls of `create` return: their names, which end
  -- the keys that `create` is called with, are cut off. The real path of the repository stays as it
  -- is.
  pub workers_share_slug :
      (cfg : Settings) (m : WorktreeManager)
      (repo_path branch base agent worker prompt other worker' prompt' : Text) (w w' : World)
      (path path' : Text)
      → let key = branch_to_slug branch ++ str "-" ++ agent in
        let key' = branch_to_slug branch ++ str "-" ++ other in
        40 ≤ length (branch_to_slug branch)
        → IsFixed disk m
        → (Worktree.create disk m repo_path key base worker cfg.symlink_dirs w).0 ≡ returned path
        → (Worktree.create disk m repo_path key' base worker' cfg.symlink_dirs w').0
          ≡ returned path'
        → (create_for cfg agent repo_path branch base worker prompt
            ≡ try_else
                (ask (create repo_path key base worker cfg.symlink_dirs))
                (with_worktree agent branch worker prompt)
                (on_worktree_error (λ e. pass (failed_result agent [] e))))
          × (create_for cfg other repo_path branch base worker' prompt'
              ≡ try_else
                  (ask (create repo_path key' base worker' cfg.symlink_dirs))
                  (with_worktree other branch worker' prompt')
                  (on_worktree_error (λ e. pass (failed_result other [] e))))
          × (path ≡ path')
  workers_share_slug cfg m r b base a wb q o wb' q' w w' p p' long fixed e e' =
      let (u, h) = create-path disk m r (branch_to_slug b ++ str "-" ++ a) base wb _ w p e in
      let (u', h') = create-path disk m r (branch_to_slug b ++ str "-" ++ o) base wb' _ w' p' e' in
      (
        refl,
        refl,
        h
            ∙ ap (λ s. disk.worktree_path m.base_dir r s u) (same_slug b a o long)
            ∙ fixed r (safe_slug (branch_to_slug b ++ str "-" ++ o)) u u'
            ∙ sym h',
      )
