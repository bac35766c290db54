-- ===== src/Services/Worktree/Remove.antt =====
-- `remove` of codebridge/services/worktree.py with the search for the repository of a worktree.
pub mod Gone
pub mod Examples
use pycodebridge.Base.{Bool, not, ◌&&◌, List, [], ◌∷◌, Option, none, some, drop, if◌then◌else◌}
use pycodebridge.Base.Text.{Text, str, text_eq, is_empty, strip, starts_with}
use pycodebridge.Dispatch.Program.{value_error, other_error, Outcome, returned, raised}
use pycodebridge.Dispatch.Closer.{Act, next_of, and_then, guarded, pass}
use pycodebridge.Services.Worktree.{Disk, is_worktree_error}

-- What `readline` comes to: a line, an `OSError`, or a `UnicodeDecodeError`.
pub data FirstLine : Type 0 where
  line : Text → FirstLine
  unreadable undecodable : FirstLine

-- `os.path`, the first line of a file and the entries of a directory, `none` when `os.scandir` raises
-- an `OSError`; an entry has what its `is_dir` gives, `none` when that raises an `OSError`. `lower` is
-- `str.lower`.
pub record Paths (World : Type 0) : Type 0 where
  pub realpath : Text → World → Text
  pub dirname : Text → Text
  pub basename : Text → Text
  pub join_path : Text → Text → Text
  pub is_abs : Text → Bool
  pub is_file : Text → World → Bool
  pub first_line : Text → World → FirstLine
  pub scan_dir : Text → World → Option (List (Text × Option Bool))
  pub lower : Text → Text

module _ {World : Type 0} (disk : Disk World) (paths : Paths World) where
  -- The repository whose worktree has this line in its .git file.
  abbrev repo_of_line : Text → FirstLine → World → Outcome Text
  repo_of_line wt_real undecodable w = raised (value_error (str "invalid start byte"))
  repo_of_line wt_real unreadable w = returned []
  repo_of_line wt_real (line text) w =
      let first = strip text in
      let named = strip (drop 7 first) in
      let gitdir =
        paths.realpath (if paths.is_abs named then named else paths.join_path wt_real named) w in
      let common = paths.dirname (paths.dirname gitdir) in
      let repo = paths.dirname common in
      if not (starts_with (str "gitdir:") (paths.lower first))
      then returned []
      else if not (text_eq (paths.basename common) (str ".git"))
      then returned []
      else if disk.is_dir (paths.join_path repo (str ".git")) w
      then returned repo
      else returned []

  unfoldable pub find_repo_from_git_file : Text → World → Outcome Text
  find_repo_from_git_file worktree_path w =
      let wt_real = paths.realpath worktree_path w in
      let git_file = paths.join_path wt_real (str ".git") in
      if paths.is_file git_file w
      then repo_of_line wt_real (paths.first_line git_file w) w
      else returned []

  -- The first directory beside the worktree that is a repository.
  abbrev sibling_repo : Text → List (Text × Option Bool) → World → Outcome Text
  sibling_repo wt_real [] w = returned []
  sibling_repo wt_real ((path, none) ∷ entries) w = raised (other_error (str "Permission denied"))
  sibling_repo wt_real ((path, some dir) ∷ entries) w =
      let rest = sibling_repo wt_real entries w in
      if dir && not (text_eq path wt_real) && disk.is_dir (paths.join_path path (str ".git")) w
      then returned path
      else rest

  abbrev sibling_in : Text → Option (List (Text × Option Bool)) → World → Outcome Text
  sibling_in wt_real none w = returned []
  sibling_in wt_real (some entries) w = sibling_repo wt_real entries w

  abbrev or_sibling : Text → Outcome Text → World → Outcome Text
  or_sibling wt_real (returned repo) w =
      if is_empty repo
      then sibling_in wt_real (paths.scan_dir (paths.dirname wt_real) w) w
      else returned repo
  or_sibling wt_real (raised e) w = raised e

  unfoldable pub find_repo_for_worktree : Text → World → Outcome Text
  find_repo_for_worktree worktree_path w =
      or_sibling (paths.realpath worktree_path w) (find_repo_from_git_file worktree_path w) w

  -- git is asked to remove the worktree; a `WorktreeError` is logged only.
  abbrev pub ask_git : Text → Text → Act World Unit
  ask_git repo_path worktree_path w =
      if is_empty repo_path
      then (pass tt w)
      else guarded is_worktree_error
          (disk.git repo_path (str "worktree" ∷ str "remove" ∷ str "--force" ∷ worktree_path ∷ []))
          (λ u. u) tt w

  abbrev pub drop_dir : Text → Act World Unit
  drop_dir path w = pass tt (if disk.is_dir path w then disk.remove_tree path w else w)

  unfoldable pub remove : Text → Act World Unit
  remove worktree_path w =
      if is_empty worktree_path
      then (pass tt w)
      else next_of
          (λ repo_path. and_then (ask_git repo_path worktree_path) (λ _. drop_dir worktree_path))
          (find_repo_for_worktree worktree_path w, w)
