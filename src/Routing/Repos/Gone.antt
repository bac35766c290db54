-- ===== src/Routing/Repos/Gone.antt =====
-- What is left of a repository in the state.
use pycodebridge.Base.{Bool, false, not, ◌≡◌, arith, List, [], ◌∷◌, All, keep, any, map, if_intro}
use pycodebridge.Base.Text.{Text, text_eq}
use pycodebridge.Base.Dict.{Dict}
use pycodebridge.Sessions.State.{SessionState, ChannelState, FileState}
use pycodebridge.Routing.Repos.{
  repo_key, of_repo, prune_channel, emptied, prune_channels, prune_state_for_repo,
  rename_state_repo, rename_session,
}

keep_none {ℓ} :
    {A : Type ℓ} (p : A → Bool) (xs : List A) → All (λ x. p x ≡ false) (keep (λ x. not (p x)) xs)
keep_none p [] = tt
keep_none p (x ∷ xs) =
    if_intro (All (λ x. p x ≡ false)) (not (p x)) (x ∷ keep (λ x. not (p x)) xs)
      (keep (λ x. not (p x)) xs) (λ t. (ground (arith, t), keep_none p xs)) (λ _. keep_none p xs)

any_none {ℓ} :
    {A : Type ℓ} (p : A → Bool) (xs : List A) → any p xs ≡ false → All (λ x. p x ≡ false) xs
any_none p [] e = tt
any_none p (x ∷ xs) e = (ground (arith, e), any_none p xs (ground (arith, e)))

module _ (lower : Text → Text) where
  -- No session of the channel is one of the repository.
  abbrev pub IsFree : Text → Text → ChannelState → Type 0
  IsFree key path ch = All (λ e. of_repo lower key path e.1 ≡ false) ch.sessions

  prune_channel-IsFree :
      (key path : Text) (ch : ChannelState) → IsFree key path (prune_channel lower key path ch)
  prune_channel-IsFree key path ch =
      if_intro (IsFree key path) (any (λ e. of_repo lower key path e.1) ch.sessions) _ ch
        (λ _. keep_none (λ e. of_repo lower key path e.1) ch.sessions)
        (λ t. any_none (λ e. of_repo lower key path e.1) ch.sessions t)

  prune_channels-IsFree :
      (key path : Text) (d : Dict ChannelState)
      → All (λ c. IsFree key path c.1) (prune_channels lower key path d)
  unfolding prune_channels
  prune_channels-IsFree key path [] = tt
  prune_channels-IsFree key path ((c, ch) ∷ d) =
      if_intro (All (λ c. IsFree key path c.1)) (emptied lower key path ch)
        (prune_channels lower key path d)
        ((c, prune_channel lower key path ch) ∷ prune_channels lower key path d)
        (λ _. prune_channels-IsFree key path d)
        (λ _. (prune_channel-IsFree key path ch, prune_channels-IsFree key path d))

  -- After a repository was pruned, no stored session has its name or its path.
  pub prune_state_for_repo-IsFree :
      (fs : FileState) (repo_name repo_path : Text)
      → All
          (λ c. IsFree (repo_key lower repo_name) repo_path c.1)
          (prune_state_for_repo lower fs repo_name repo_path).channels
  unfolding prune_state_for_repo
  prune_state_for_repo-IsFree fs repo_name repo_path =
      prune_channels-IsFree (repo_key lower repo_name) repo_path fs.channels

  renamed :
      (key from_path to_name to_path : Text) (d : Dict SessionState)
      → text_eq (repo_key lower to_name) key ≡ false
      → text_eq to_path from_path ≡ false
      → All
          (λ (e : Text × SessionState). of_repo lower key from_path e.1 ≡ false)
          (map
            (λ (e : Text × SessionState).
              (e.0, rename_session lower key from_path to_name to_path e.1))
            d)
  unfolding of_repo
  renamed key from_path to_name to_path [] n p = tt
  renamed key from_path to_name to_path (e ∷ d) n p =
      (ground (arith, n, p), renamed key from_path to_name to_path d n p)

  renamed_channels :
      (key from_path to_name to_path : Text) (d : Dict ChannelState)
      → text_eq (repo_key lower to_name) key ≡ false
      → text_eq to_path from_path ≡ false
      → All
          (λ (c : Text × ChannelState). IsFree key from_path c.1)
          (map
            (λ (c : Text × ChannelState). (
              c.0,
              record c.1 {
                sessions =
                    map
                      (λ e. (e.0, rename_session lower key from_path to_name to_path e.1))
                      c.1.sessions;
              },
            ))
            d)
  renamed_channels key from_path to_name to_path [] n p = tt
  renamed_channels key from_path to_name to_path (c ∷ d) n p = (
    renamed key from_path to_name to_path c.1.sessions n p,
    renamed_channels key from_path to_name to_path d n p,
  )

  -- After a repository was renamed to one with another name and another path, no stored session has
  -- its old name or its old path.
  pub rename_state_repo-IsFree :
      (fs : FileState) (from_name from_path to_name to_path : Text)
      → text_eq (repo_key lower to_name) (repo_key lower from_name) ≡ false
      → text_eq to_path from_path ≡ false
      → All
          (λ c. IsFree (repo_key lower from_name) from_path c.1)
          (rename_state_repo lower fs from_name from_path to_name to_path).channels
  unfolding rename_state_repo
  rename_state_repo-IsFree fs from_name from_path to_name to_path n p =
      renamed_channels (repo_key lower from_name) from_path to_name to_path fs.channels n p
