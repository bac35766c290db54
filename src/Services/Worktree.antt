-- ===== src/Services/Worktree.antt =====
-- codebridge/services/worktree.py: the worktrees of sessions. git, the file system and the clock are
-- reached through `Disk`.
pub mod Remove
pub mod Path
use pycodebridge.Base.{
  ℕ, leb, ◌==◌, max, Bool, true, false, ◌&&◌, ◌||◌, List, [], ◌∷◌, ◌++◌, keep, map, take, length,
  if◌then◌else◌,
}
use pycodebridge.Base.Text.{Text, str, is_empty, is_name_char, strip, strip_by, starts_with}
use pycodebridge.Base.Text.Lines.{splitlines}
use pycodebridge.Base.Decimal.{show}
use pycodebridge.Dispatch.Program.{Failure, worktree_error, Outcome, returned, raised}
use pycodebridge.Dispatch.Closer.{Act, and_then, guarded, pass}

-- `_git` and `_git_output` on a repository, `_symlink_dirs`, `os.path.isdir`, `shutil.rmtree`, the
-- path of a worktree, and `_timestamp()`.
pub record Disk (World : Type 0) : Type 0 where
  pub git : Text → List Text → Act World Unit
  pub git_output : Text → List Text → Act World Text
  pub symlink_dirs : Text → Text → List Text → Act World Unit
  pub is_dir : Text → World → Bool
  pub remove_tree : Text → World → World
  pub worktree_path : Text → Text → Text → World → Text
  pub timestamp : World → Text

pub record WorktreeManager : Type 0 where
  pub base_dir : Text
  pub max_per_repo : ℕ
  pub cleanup_on_end : Text

pub init : Text → ℕ → Text → WorktreeManager
init base_dir max_per_repo cleanup_on_end = record {
  base_dir = base_dir;
  max_per_repo = max 1 max_per_repo;
  cleanup_on_end = (if is_empty cleanup_on_end then str "remove" else cleanup_on_end);
}

unfoldable pub contains : Text → Text → Bool
contains p [] = is_empty p
contains p (c ∷ s) = starts_with p (c ∷ s) || contains p s

abbrev pub or_session : Text → Text
or_session s = if is_empty s then str "session" else s

unfoldable pub safe_slug : Text → Text
safe_slug session_key =
    let slug = map (λ c. if is_name_char c then c else b'-') (or_session session_key) in
    or_session (strip_by (λ c. c == b'-') (take 40 slug))

abbrev is_managed : Text → Bool
is_managed line =
    starts_with (str "branch ") line
    && (contains (str "session/") line || contains (str "task/") line)

unfoldable pub count_managed_worktrees : Text → ℕ
count_managed_worktrees porcelain_output =
    length (keep (λ line. is_managed (strip line)) (splitlines porcelain_output))

abbrev too_many : WorktreeManager → Text → Text
too_many m repo_path =
    str "max worktrees (" ++ show m.max_per_repo ++ str ") reached for " ++ repo_path

-- `except WorktreeError`
abbrev pub is_worktree_error : Failure → Bool
is_worktree_error (worktree_error e) = true
is_worktree_error e = false

module _ {World : Type 0} (disk : Disk World) where
  abbrev drop_tree : Text → Act World Unit
  drop_tree path w = (returned tt, (if disk.is_dir path w then disk.remove_tree path w else w))

  -- The directory that a crashed session left behind.
  abbrev clear_stale : Text → Text → Act World Unit
  clear_stale repo_path wt_path w =
      let forced =
        guarded is_worktree_error
          (disk.git repo_path (str "worktree" ∷ str "remove" ∷ str "--force" ∷ wt_path ∷ []))
          (λ u. u) tt in
      if disk.is_dir wt_path w then and_then forced (λ _. drop_tree wt_path) w else (returned tt, w)

  abbrev or_checkout : Text → Text → Text → Outcome Unit × World → Outcome Unit × World
  or_checkout repo_path branch wt_path (returned u, w) = (returned u, w)
  or_checkout repo_path branch wt_path (raised (worktree_error e), w) =
      if contains (str "already exists") e
      then disk.git repo_path (str "worktree" ∷ str "add" ∷ str "-f" ∷ wt_path ∷ branch ∷ []) w
      else (raised (worktree_error e), w)
  or_checkout repo_path branch wt_path (raised e, w) = (raised e, w)

  unfoldable pub worktree_add : Text → Text → Text → Text → Act World Unit
  worktree_add repo_path branch wt_path base_branch =
      let base = (if is_empty base_branch then [] else base_branch ∷ []) in
      and_then (clear_stale repo_path wt_path) (λ _ w. or_checkout repo_path branch wt_path (
        disk.git repo_path
          (str "worktree" ∷ str "add" ∷ str "-f" ∷ str "-b" ∷ branch ∷ wt_path ∷ base) w))

  unfoldable pub count_for_repo : Text → Act World ℕ
  count_for_repo repo_path =
      and_then (disk.git_output repo_path (str "worktree" ∷ str "list" ∷ str "--porcelain" ∷ []))
        (λ lines. pass (count_managed_worktrees lines))

  abbrev branch_for : Text → Text → World → Text
  branch_for branch_name slug w =
      if is_empty branch_name
      then str "session/" ++ slug ++ str "/" ++ disk.timestamp w
      else branch_name

  abbrev link : Text → Text → List Text → Act World Unit
  link repo_path wt_path [] = pass tt
  link repo_path wt_path (dir ∷ dirs) = disk.symlink_dirs repo_path wt_path (dir ∷ dirs)

  abbrev add_and_link : Text → Text → Text → Text → List Text → Act World Text
  add_and_link repo_path branch wt_path base_branch dirs =
      and_then (worktree_add repo_path branch wt_path base_branch)
        (λ _. and_then (link repo_path wt_path dirs) (λ _. pass wt_path))

  unfoldable pub create :
      WorktreeManager
      → (repo_path session_key base_branch branch_name : Text) → List Text
      → Act World Text
  create m repo_path session_key base_branch branch_name dirs =
      let slug = safe_slug session_key in
      and_then (count_for_repo repo_path) (λ count w.
        if leb m.max_per_repo count
        then (raised (worktree_error (too_many m repo_path)), w)
        else add_and_link repo_path (branch_for branch_name slug w)
            (disk.worktree_path m.base_dir repo_path slug w) base_branch dirs w)

  pub prune_stale : Text → Act World Unit
  prune_stale repo_path =
      guarded is_worktree_error
        (disk.git repo_path (str "worktree" ∷ str "prune" ∷ str "--expire" ∷ str "now" ∷ []))
        (λ u. u) tt
