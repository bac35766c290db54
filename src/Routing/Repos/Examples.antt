-- ===== src/Routing/Repos/Examples.antt =====
-- The removal and the renaming of a repository at work.
use pycodebridge.Base.Integers.{pos}
use pycodebridge.Base.{false, ◌≡◌, refl, All, [], ◌∷◌}
use pycodebridge.Base.Text.{Text, str, text_eq, strip, is_name_char, lower_char}
use pycodebridge.Util.Path.{normalize_repo_name, is_name, chomp}
use pycodebridge.Sessions.State.{new_session, FileState}
use pycodebridge.Routing.Repos.{repo_key, prune_state_for_repo, rename_state_repo}
use pycodebridge.Routing.Repos.Gone.{IsFree, prune_state_for_repo-IsFree, rename_state_repo-IsFree}

abbrev same : Text → Text
same s = s

-- One channel with a session in each of two repositories.
abbrev file : FileState
file = record {
  version = pos 1;
  channels =
      (
        str "c",
        record {
          sessions =
              (str "a", new_session (str "one") (str "/code/one") [])
              ∷ (str "b", new_session (str "two") (str "/code/two") [])
              ∷ [];
          sticky = (str "u", str "a") ∷ [];
        },
      )
      ∷ [];
  dm_bindings = [];
  runtime_options_global = [];
  runtime_options_channels = [];
}

prune_state_for_repo-IsFree_example :
    All
      (λ c. IsFree same (repo_key same (str "One")) (str "/code/one") c.1)
      (prune_state_for_repo same file (str "One") (str "/code/one")).channels
prune_state_for_repo-IsFree_example =
    prune_state_for_repo-IsFree same file (str "One") (str "/code/one")

other_key : text_eq (repo_key same (str "three")) (repo_key same (str "one")) ≡ false
unfolding repo_key normalize_repo_name is_name chomp is_name_char lower_char strip text_eq
other_key = refl

other_path : text_eq (str "/code/three") (str "/code/one") ≡ false
unfolding text_eq
other_path = refl

rename_state_repo-IsFree_example :
    All
      (λ c. IsFree same (repo_key same (str "one")) (str "/code/one") c.1)
      (rename_state_repo same file
        (str "one")
        (str "/code/one")
        (str "three")
        (str "/code/three")).channels
rename_state_repo-IsFree_example =
    rename_state_repo-IsFree same file (str "one") (str "/code/one") (str "three")
      (str "/code/three") other_key other_path
