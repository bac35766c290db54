-- ===== src/Routing/Repos.antt =====
-- codebridge/routing/helpers.py: what the removal and the renaming of a repository do to the state.
pub mod Gone
pub mod Examples
use pycodebridge.Base.{
  Bool, true, false, not, ◌&&◌, ◌||◌, List, [], ◌∷◌, Option, none, some, keep, any, map,
  if◌then◌else◌,
}
use pycodebridge.Base.Text.{Text, text_eq, is_empty, strip}
use pycodebridge.Base.Dict.{Dict, get, has}
use pycodebridge.Util.Path.{normalize_repo_name}
use pycodebridge.Sessions.State.{SessionState, ChannelState, FileState}

-- No entries.
abbrev pub is_nil {ℓ} : {A : Type ℓ} → List A → Bool
is_nil [] = true
is_nil (x ∷ xs) = false

-- `str.lower`
module _ (lower : Text → Text) where
  abbrev or_lower : Text → Option Text → Text
  or_lower raw none = lower raw
  or_lower raw (some name) = name

  -- `_repo_key`
  unfoldable pub repo_key : Text → Text
  repo_key repo_name =
      let raw = strip repo_name in
      if is_empty raw then [] else or_lower raw (normalize_repo_name raw)

  -- The sessions of a repository: by name, or by path.
  unfoldable pub of_repo : Text → Text → SessionState → Bool
  of_repo key path sess = text_eq (repo_key sess.repo_name) key || text_eq sess.repo_path path

  abbrev pub prune_channel : Text → Text → ChannelState → ChannelState
  prune_channel key path ch =
      let sessions = keep (λ e. not (of_repo key path e.1)) ch.sessions in
      if any (λ e. of_repo key path e.1) ch.sessions
      then record { sessions = sessions; sticky = keep (λ e. has e.1 sessions) ch.sticky }
      else ch

  -- `del fs.channels[channel_id]`, when the channel changed and nothing is left of it.
  abbrev pub emptied : Text → Text → ChannelState → Bool
  emptied key path ch =
      any (λ e. of_repo key path e.1) ch.sessions
      && is_nil (prune_channel key path ch).sessions
      && is_nil (prune_channel key path ch).sticky

  prune_channels : Text → Text → List (Text × ChannelState) → Dict ChannelState
  prune_channels key path [] = []
  prune_channels key path ((channel_id, ch) ∷ rest) =
      let rest' = prune_channels key path rest in
      if emptied key path ch then rest' else (channel_id, prune_channel key path ch) ∷ rest'

  pub prune_state_for_repo : FileState → Text → Text → FileState
  unfolding prune_channels
  prune_state_for_repo fs repo_name repo_path = record fs {
    channels = prune_channels (repo_key repo_name) repo_path fs.channels;
  }

  abbrev rename_session : Text → Text → Text → Text → SessionState → SessionState
  rename_session key from_path to_name to_path sess =
      if of_repo key from_path sess
      then record sess { repo_name = to_name; repo_path = to_path }
      else sess

  pub rename_state_repo : FileState → Text → Text → Text → Text → FileState
  rename_state_repo fs from_name from_path to_name to_path = record fs {
    channels =
        map
          (λ c. (
            c.0,
            record c.1 {
              sessions =
                  map
                    (λ e. (e.0, rename_session (repo_key from_name) from_path to_name to_path e.1))
                    c.1.sessions;
            },
          ))
          fs.channels;
  }
