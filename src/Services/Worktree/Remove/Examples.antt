-- ===== src/Services/Worktree/Remove/Examples.antt =====
-- A worktree that git does not remove. The world is whether its directory is there.
use pycodebridge.Base.{◌≡◌, refl, Bool, true, false, [], ◌++◌, none}
use pycodebridge.Base.Text.{str, text_eq, strip, starts_with}
use pycodebridge.Dispatch.Program.{worktree_error, returned, raised}
use pycodebridge.Services.Worktree.{Disk}
use pycodebridge.Services.Worktree.Remove.{
  Paths, line, find_repo_from_git_file, find_repo_for_worktree, remove,
}
use pycodebridge.Services.Worktree.Remove.Gone.{IsGone, remove-IsGone}

abbrev disk : Disk Bool
disk = record {
  git = λ repo args w. (raised (worktree_error (str "git worktree remove failed")), w);
  git_output = λ repo args w. (returned [], w);
  symlink_dirs = λ repo wt dirs w. (returned tt, w);
  is_dir = λ path w. w;
  remove_tree = λ path w. false;
  worktree_path = λ base repo slug w. base ++ slug;
  timestamp = λ w. str "20260101-120000";
}

abbrev paths : Paths Bool
paths = record {
  realpath = λ path w. path;
  dirname = λ path. str "/code/app/.git";
  basename = λ path. str ".git";
  join_path = λ dir name. dir ++ str "/" ++ name;
  is_abs = λ path. true;
  is_file = λ path w. true;
  first_line = λ path w. line (str "gitdir: /code/app/.git/worktrees/app-wt");
  scan_dir = λ path w. none;
  lower = λ s. s;
}

found :
    find_repo_for_worktree disk paths (str "/code/app-wt") true ≡ returned (str "/code/app/.git")
unfolding find_repo_for_worktree find_repo_from_git_file text_eq strip starts_with
found = refl

remove-IsGone_example :
    IsGone disk paths (str "/code/app-wt") (remove disk paths (str "/code/app-wt") true)
remove-IsGone_example =
    remove-IsGone disk paths (str "/code/app-wt") (str "/code/app/.git") true refl found
      (λ repo args w e x. cc) (λ w. refl)
